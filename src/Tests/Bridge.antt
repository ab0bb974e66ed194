-- ===== src/Tests/Bridge.antt =====
-- Two nodes that run the same blocks, a command of an unlisted sender, and listing blocks.
use many_framework.Prelude.{
  ◌≡◌, refl, ℕ, ◌+◌, true, false, Option, none, some, List, [], ◌∷◌, Bytes, arith, length, take,
  codes, ◌⊎◌,
}
use many_framework.Types.{Result, ok, err, invalid_from_identity}
use many_framework.Storage.Iterator.{included, unbounded, descending}
use many_framework.Abci.Messages.{Response, Request, Codec, Server}
use many_framework.Abci.App.Laws.{Block, IsReplica, run_blocks, run_blocks-Related}
use many_framework.Abci.Frontend.{Client, AbciModuleMany, execute}
use many_framework.Abci.Frontend.Laws.{IsAllowedCommand, execute_broadcasts, execute_unlisted}
use many_framework.Abci.Blockchain.{TmBlock, ChainClient, ListArgs, RangeBlockQuery}
use many_framework.Abci.Blockchain.Laws.{meets_all, select, in_order}

-- An envelope is the text it holds.
abbrev answered : ℕ → Bytes → Response
answered node text = record {
  version = some node;
  from = node;
  to = none;
  answer = ok text;
  timestamp = some node;
  token = none;
  async = none;
}

abbrev written_answer : Response → Option Bytes
written_answer r = elim r.answer [ err e ↦ none | ok text ↦ some (r.from ∷ text) ]

abbrev read_answer : Bytes → Option Response
read_answer [] = none
read_answer (node ∷ text) = some (answered node text)

abbrev plain : Codec Bytes
plain = record {
  from_slice = λ b. some b;
  to_vec = λ b. some b;
  payload = λ b. some b;
  response_from_bytes = read_answer;
  response_to_bytes = written_answer;
  default_response = answered 0 [];
  decode_info = λ b. some (length b, b);
  decode_commit = λ b. some (0, b);
  anonymous = 0;
  error_text = λ e. [];
  decode_error = λ b. [];
  encode_error = λ b. [];
}

-- A node of a server that counts: its address, and how often it was called.
abbrev Counting : Type 0
Counting = ℕ × ℕ

abbrev counting : Server Bytes Counting
counting = record {
  send_envelope = λ e s. (ok (s.0 ∷ s.1 ∷ e), (s.0, s.1 + 1));
  call = λ k s. (ok (s.1 ∷ []), (s.0, s.1 + 1));
}

abbrev AgreeOnCount : Counting → Counting → Type 0
AgreeOnCount s s' = s.1 ≡ s'.1

counting-IsReplica : IsReplica plain counting AgreeOnCount
counting-IsReplica = record {
  sent = λ e s s' h. (refl, ground (arith, h), refl, refl);
  after_sent = λ e s s' h. ground (arith, h);
  after_called = λ k s s' h. ground (arith, h);
}

abbrev two_blocks : List Block
two_blocks =
    record { time = some 5; txs = (1 ∷ []) ∷ (2 ∷ []) ∷ [] }
    ∷ record { time = none; txs = (3 ∷ []) ∷ [] }
    ∷ []

run_blocks-Related_example :
    ((run_blocks plain counting two_blocks (7, 0)).0
      ≡ (run_blocks plain counting two_blocks (8, 0)).0)
    × AgreeOnCount
        (run_blocks plain counting two_blocks (7, 0)).1
        (run_blocks plain counting two_blocks (8, 0)).1
run_blocks-Related_example =
    run_blocks-Related plain counting AgreeOnCount counting-IsReplica two_blocks (7, 0) (8, 0) refl

-- A message is the address of its sender and its method; the pool of transactions is a list.
abbrev decoded_request : Bytes → Result Request
decoded_request [] = err invalid_from_identity
decoded_request (a ∷ method) = ok (record { from = a; method = method; token = none })

abbrev pool : Client Bytes (List Bytes)
pool = record {
  decode_request = decoded_request;
  encode_response = written_answer;
  broadcast_tx_sync = λ b txs. (some b, b ∷ txs);
  abci_query = λ b txs. some b;
  from_request = λ r node a. answered node [];
  error = λ node e. answered node (1 ∷ []);
}

abbrev frontend : AbciModuleMany
frontend = record {
  identity = 9;
  backend_endpoints = (codes "put", true) ∷ (codes "get", false) ∷ [];
  allow_addrs = some (4 ∷ 5 ∷ []);
}

execute_broadcasts_example :
    ((execute plain pool frontend (4 ∷ codes "put") []).1 ≡ [])
    ⊎ ((bytes : Bytes) × IsAllowedCommand plain pool frontend (4 ∷ codes "put") bytes
        × ((execute plain pool frontend (4 ∷ codes "put") []).1 ≡ bytes ∷ []))
execute_broadcasts_example = execute_broadcasts plain pool frontend (4 ∷ codes "put") []

execute_unlisted_example :
    execute plain pool frontend (6 ∷ codes "put") [] ≡ (some (9 ∷ 1 ∷ []), [])
execute_unlisted_example =
    execute_unlisted plain pool frontend (6 ∷ codes "put") []
      (record { from = 6; method = codes "put"; token = none }) (6 ∷ codes "put") refl refl refl
      refl

abbrev at_height : ℕ → TmBlock
at_height n = record {
  height = n;
  hash = n ∷ [];
  last_block_hash = some ((n + 100) ∷ []);
  app_hash = [];
  time = some n;
  txs = [];
}

abbrev three_blocks : List TmBlock
three_blocks = at_height 1 ∷ at_height 2 ∷ at_height 3 ∷ []

abbrev node : ChainClient (List TmBlock)
node = record {
  tx = λ h c. none;
  block = λ n c. none;
  block_by_hash = λ h c. some none;
  block_search = λ query page n order c.
      some (take n (in_order order (select (λ b. meets_all query b.height) c)));
  status = λ c. some (record { hash = 3 ∷ []; height = 3 }, []);
  sha256 = λ b. b;
  genesis = record { hash = []; height = 0 };
}

-- The last of the blocks from height 2 on, the highest first.
abbrev last_one : ListArgs
last_one = record {
  count = some 1;
  order = some descending;
  filter =
      some (RangeBlockQuery.by_height (record { start_bound = included 2; end_bound = unbounded }));
}

-- ===== src/Abci/App/Laws.antt =====
-- Two nodes that run the same blocks give the same code and payload for each transaction, where
-- their servers' responses differ at most in what the application overwrites.
use many_framework.Prelude.{
  ◌≡◌, refl, ℕ, Option, none, some, List, [], ◌∷◌, Bytes, arith, Option-cases, inl, inr,
}
use many_framework.Types.{Result, ok, err}
use many_framework.Abci.Messages.{
  Response, Codec, Server, Call, call_begin_block, call_end_block, call_commit,
}
use many_framework.Abci.App.{
  normalize, response_of, deliver, begin_block, deliver_tx, end_block, commit,
}

-- Two responses that differ in who answers, the version and the time at most.
abbrev pub SameAnswer : Response → Response → Type 0
SameAnswer r r' =
    (r.to ≡ r'.to) × (r.answer ≡ r'.answer) × (r.token ≡ r'.token) × (r.async ≡ r'.async)

-- A block: its time and its transactions.
pub record Block : Type 0 where
  pub time : Option ℕ
  pub txs : List Bytes

module _ {Envelope S : Type 0} (c : Codec Envelope) (server : Server Envelope S) where
  -- The transactions of a block, each delivered in turn: the answers without their logs, which may
  -- differ between two nodes.
  abbrev pub deliver_all : List Bytes → S → List (ℕ × Bytes) × S
  deliver_all [] st = ([], st)
  deliver_all (tx ∷ txs) st =
      let first = deliver_tx c server tx st in
      let rest = deliver_all txs first.1 in ((first.0.code, first.0.payload) ∷ rest.0, rest.1)

  -- A block from its start to its commit.
  abbrev pub run_block : Block → S → List (ℕ × Bytes) × S
  run_block block st =
      let delivered = deliver_all block.txs (begin_block c server block.time st) in
      (delivered.0, (commit c server (end_block c server delivered.1)).1)

  abbrev pub run_blocks : List Block → S → List (List (ℕ × Bytes)) × S
  run_blocks [] st = ([], st)
  run_blocks (b ∷ blocks) st =
      let first = run_block b st in
      let rest = run_blocks blocks first.1 in (first.0 ∷ rest.0, rest.1)

  abbrev pub SameSent : Result Envelope → Result Envelope → Type 0
  SameSent (ok a) (ok b) = SameAnswer (response_of c server a) (response_of c server b)
  SameSent (err e) (err f) = Unit {0}
  SameSent (ok a) (err f) = ⊥
  SameSent (err e) (ok b) = ⊥

  -- A relation between the states of two servers: an envelope that is sent to both is answered by
  -- both alike or fails at both, and what both are sent and called with keeps them related.
  pub record IsReplica (Related : S → S → Type 0) : Type 0 where
    pub sent :
        (e : Envelope) (s s' : S)
        → Related s s'
        → SameSent (server.send_envelope e s).0 (server.send_envelope e s').0
    pub after_sent :
        (e : Envelope) (s s' : S)
        → Related s s'
        → Related (server.send_envelope e s).1 (server.send_envelope e s').1
    pub after_called :
        (k : Call) (s s' : S) → Related s s' → Related (server.call k s).1 (server.call k s').1

module _ {Envelope S : Type 0} (c : Codec Envelope) (server : Server Envelope S)
    (Related : S → S → Type 0) (replica : IsReplica c server Related) where
  normalize-SameAnswer : (r r' : Response) → SameAnswer r r' → normalize c r ≡ normalize c r'
  unfolding normalize
  normalize-SameAnswer r r' h = ground (arith, h)

  deliver-SameSent :
      (a b : Result Envelope)
      → SameSent c server a b
      → ((deliver c server a).code ≡ (deliver c server b).code)
        × ((deliver c server a).payload ≡ (deliver c server b).payload)
  deliver-SameSent (ok a) (ok b) h =
      rw (deliver, normalize-SameAnswer (response_of c server a) (response_of c server b) h)
        (refl, refl)
  deliver-SameSent (err e) (err f) h = (refl, refl)
  deliver-SameSent (ok a) (err f) h = elim h [ ]
  deliver-SameSent (err e) (ok b) h = elim h [ ]

  deliver_tx-decoded :
      (tx : Bytes) (e : Envelope) (s : S)
      → c.from_slice tx ≡ some e
      → deliver_tx c server tx s
        ≡ (deliver c server (server.send_envelope e s).0, (server.send_envelope e s).1)
  unfolding deliver_tx
  deliver_tx-decoded tx e s h = ground (arith, h)

  deliver_tx-undecoded :
      (tx : Bytes) (s : S)
      → c.from_slice tx ≡ none
      → deliver_tx c server tx s ≡ (record { code = 2; payload = []; log = c.decode_error tx }, s)
  unfolding deliver_tx
  deliver_tx-undecoded tx s h = ground (arith, h)

  deliver_tx-Related :
      (tx : Bytes) (s s' : S)
      → Related s s'
      → ((deliver_tx c server tx s).0.code ≡ (deliver_tx c server tx s').0.code)
        × ((deliver_tx c server tx s).0.payload ≡ (deliver_tx c server tx s').0.payload)
        × Related (deliver_tx c server tx s).1 (deliver_tx c server tx s').1
  deliver_tx-Related tx s s' h = elim (Option-cases (c.from_slice tx)) [
    | inl none_found ↦
        rw (deliver_tx-undecoded tx s none_found, deliver_tx-undecoded tx s' none_found)
          (refl, refl, h)
    | inr (e, found) ↦
        rw (deliver_tx-decoded tx e s found, deliver_tx-decoded tx e s' found)
          (
            (deliver-SameSent _ _ (replica.sent e s s' h)).0,
            (deliver-SameSent _ _ (replica.sent e s s' h)).1,
            replica.after_sent e s s' h,
          )
  ]

  deliver_all-Related :
      (txs : List Bytes) (s s' : S)
      → Related s s'
      → ((deliver_all c server txs s).0 ≡ (deliver_all c server txs s').0)
        × Related (deliver_all c server txs s).1 (deliver_all c server txs s').1
  deliver_all-Related [] s s' h = (refl, h)
  deliver_all-Related (tx ∷ txs) s s' h =
      let first = deliver_tx-Related tx s s' h in
      let rest = deliver_all-Related txs _ _ first.2 in (rw (first.0, first.1, rest.0), rest.1)

  run_block-Related :
      (block : Block) (s s' : S)
      → Related s s'
      → ((run_block c server block s).0 ≡ (run_block c server block s').0)
        × Related (run_block c server block s).1 (run_block c server block s').1
  unfolding begin_block end_block commit
  run_block-Related block s s' h =
      let begun = replica.after_called (call_begin_block block.time) s s' h in
      let delivered = deliver_all-Related block.txs _ _ begun in
      let ended = replica.after_called call_end_block _ _ delivered.1 in
      (delivered.0, replica.after_called call_commit _ _ ended)

  -- Two nodes of one server: where an envelope that is sent to both is answered by both, alike but
  -- for who answers, the version and the time, or fails at both, and where sending it and the calls
  -- at the start and the end of a block keep the two related, the nodes give Tendermint the same
  -- code and the same payload for each transaction of any sequence of blocks. Of the logs and of the
  -- answers to a commit nothing is said.
  pub run_blocks-Related :
      (blocks : List Block) (s s' : S)
      → Related s s'
      → ((run_blocks c server blocks s).0 ≡ (run_blocks c server blocks s').0)
        × Related (run_blocks c server blocks s).1 (run_blocks c server blocks s').1
  run_blocks-Related [] s s' h = (refl, h)
  run_blocks-Related (b ∷ blocks) s s' h =
      let first = run_block-Related b s s' h in
      let rest = run_blocks-Related blocks _ _ first.1 in (rw (first.0, rest.0), rest.1)

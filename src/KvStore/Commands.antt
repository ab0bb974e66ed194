-- ===== src/KvStore/Commands.antt =====
-- Sequences of requests to put, disable and transfer keys, for the sender or for an alternative
-- owner, against the same requests on the map of entries.
use many_framework.Prelude.{⊤, ◌≡◌, refl, List, [], ◌∷◌, Bytes}
use many_framework.Types.{Address, Result, ok, err}
use many_framework.Platform.{Platform, IsPlatform}
use many_framework.KvStore.Store.{KvStoreStorage}
use many_framework.KvStore.Handlers.{
  PutArgs, DisableArgs, TransferArgs, put_key, disable_key, transfer_key,
}
use many_framework.KvStore.Entries.{Entry, Entries, update, Shows, Implements}
use many_framework.KvStore.Delegates.{
  Directory, HasAccounts, put_outcome, disable_outcome, transfer_outcome, put-Implements,
  disable-Implements, transfer-Implements,
}
use many_framework.KvStore.Directory.{
  put_key-HasAccounts, disable_key-HasAccounts, transfer_key-HasAccounts,
}

-- A request and its sender.
pub data Command : Type 0 where
  put_command : Address → PutArgs → Command
  disable_command : Address → DisableArgs → Command
  transfer_command : Address → TransferArgs → Command

abbrev pub key_of : Command → Bytes
key_of (put_command id args) = args.key
key_of (disable_command id args) = args.key
key_of (transfer_command id args) = args.key

-- The entries after an outcome: a refusal changes none.
abbrev pub settle : Bytes → Result Entry → Entries → Entries
settle key (ok e) m = update key e m
settle key (err x) m = m

abbrev pub answer_of : Result Entry → Result ⊤
answer_of (ok e) = ok tt
answer_of (err x) = err x

module _ {S : Type 0} (p : Platform S) where
  -- A request as the handlers answer it.
  unfoldable pub run_command : Command → KvStoreStorage S → Result ⊤ × KvStoreStorage S
  run_command (put_command id args) = put_key p id args
  run_command (disable_command id args) = disable_key p id args
  run_command (transfer_command id args) = transfer_key p id args

  -- The answers in turn, and the storage at the end.
  unfoldable pub run_commands : List Command → KvStoreStorage S → List (Result ⊤) × KvStoreStorage S
  run_commands [] st = ([], st)
  run_commands (c ∷ cs) st =
      let first = run_command c st in
      let rest = run_commands cs first.1 in (first.0 ∷ rest.0, rest.1)

  -- The same request on the entry of its key.
  unfoldable pub command_outcome : Directory → Command → Entries → Result Entry
  command_outcome accounts (put_command id args) m = put_outcome p accounts id args (m args.key)
  command_outcome accounts (disable_command id args) m =
      disable_outcome p accounts id args (m args.key)
  command_outcome accounts (transfer_command id args) m =
      transfer_outcome p accounts id args (m args.key)

  abbrev pub entry_command : Directory → Command → Entries → Entries
  entry_command accounts c m = settle (key_of c) (command_outcome accounts c m) m

  unfoldable pub entry_commands : Directory → List Command → Entries → List (Result ⊤) × Entries
  entry_commands accounts [] m = ([], m)
  entry_commands accounts (c ∷ cs) m =
      let rest = entry_commands accounts cs (entry_command accounts c m) in
      (answer_of (command_outcome accounts c m) ∷ rest.0, rest.1)

  settle-Shows :
      (after : Result ⊤ × KvStoreStorage S) (st : KvStoreStorage S) (key : Bytes) (m : Entries)
      (r : Result Entry)
      → Shows p st m
      → Implements p after st key m r
      → (after.0 ≡ answer_of r) × Shows p after.1 (settle key r m)
  settle-Shows after st key m (ok e) h i = i
  settle-Shows after st key m (err x) h i = rw i (refl, h)

module _ {S : Type 0} (p : Platform S) (l : IsPlatform p) (accounts : Directory) where
  run_command-Shows :
      (c : Command) (st : KvStoreStorage S) (m : Entries)
      → Shows p st m
      → HasAccounts p st accounts
      → ((run_command p c st).0 ≡ answer_of (command_outcome p accounts c m))
        × Shows p (run_command p c st).1 (entry_command p accounts c m)
  unfolding run_command command_outcome
  run_command-Shows (put_command id args) st m h known =
      settle-Shows p _ st args.key m _ h (put-Implements p l id args st m accounts h known)
  run_command-Shows (disable_command id args) st m h known =
      settle-Shows p _ st args.key m _ h (disable-Implements p l id args st m accounts h known)
  run_command-Shows (transfer_command id args) st m h known =
      settle-Shows p _ st args.key m _ h (transfer-Implements p l id args st m accounts h known)

  run_command-HasAccounts :
      (c : Command) (st : KvStoreStorage S) (m : Entries)
      → Shows p st m
      → HasAccounts p st accounts
      → HasAccounts p (run_command p c st).1 accounts
  unfolding run_command
  run_command-HasAccounts (put_command id args) st m h known =
      put_key-HasAccounts p l id st m accounts h known args
  run_command-HasAccounts (disable_command id args) st m h known =
      disable_key-HasAccounts p l id st m accounts h known args
  run_command-HasAccounts (transfer_command id args) st m h known =
      transfer_key-HasAccounts p l id st m accounts h known args

  -- Where the storage holds entries and has the accounts of a directory: any sequence of requests to
  -- put, disable and transfer keys, by anyone and in his own name or for an alternative owner, is
  -- answered as the same requests on the map of entries are, errors included, and leaves a storage
  -- that holds the entries that these leave and still has the same accounts.
  pub run_commands_refines :
      (cs : List Command) (st : KvStoreStorage S) (m : Entries)
      → Shows p st m
      → HasAccounts p st accounts
      → let after = run_commands p cs st in
        let expected = entry_commands p accounts cs m in
        (after.0 ≡ expected.0) × Shows p after.1 expected.1 × HasAccounts p after.1 accounts
  unfolding run_commands entry_commands
  run_commands_refines [] st m h known = (refl, h, known)
  run_commands_refines (c ∷ cs) st m h known =
      let first = run_command-Shows c st m h known in
      let rest =
        run_commands_refines cs (run_command p c st).1 (entry_command p accounts c m) first.1
          (run_command-HasAccounts c st m h known) in
      (rw (first.0, rest.0), rest.1, rest.2)

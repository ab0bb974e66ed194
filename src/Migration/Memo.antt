-- ===== src/Migration/Memo.antt =====
-- The legacy memos and data of held transactions become memos:
-- src/many-ledger/src/migration/memo.rs. The methods of `Memo` are parameters.
use many_framework.Prelude.{⊤, Option, none, some, List, [], ◌∷◌, Bytes}
use many_framework.Types.{
  Memo, EventInfo, InfoReturn, Value, event, multisig, put, Batch, Result, ok, err,
  deserialization_error,
}
use many_framework.Platform.{Platform}
use many_framework.Storage.State.{Method, gets, lift, ◌>>=◌, ◌>>◌}
use many_framework.Storage.Iterator.{ascending, all_events, all_multisig}
use many_framework.Migration.Store.{apply_to, commit_to}

-- `Memo::from` on a legacy memo and on data, and `push_bytes`.
pub record MemoOps : Type 0 where
  pub from_legacy : Bytes → Memo
  pub from_data : Bytes → Memo
  pub push_bytes : Memo → Bytes → Result Memo

abbrev some_memo : Result Memo → Result (Option Memo)
some_memo (ok m) = ok (some m)
some_memo (err e) = err e

-- A loop over the entries of an iterator: those that an update is found for, in their order.
unfoldable pub collect_updates :
    (Value → Result (Option Value)) → List (Bytes × Value) → Result Batch
collect_updates f [] = ok []
collect_updates f ((k, v) ∷ items) =
    let rest = collect_updates f items in
    elim (f v) [
      | err e ↦ err e
      | ok none ↦ rest
      | ok (some w) ↦ elim rest [ err e ↦ err e | ok b ↦ ok ((k, put w) ∷ b) ]
    ]

module _ (ops : MemoOps) where
  unfoldable pub new_memo : Option Bytes → Option Bytes → Result (Option Memo)
  new_memo (some m) (some d) = some_memo (ops.push_bytes (ops.from_legacy m) d)
  new_memo (some m) none = ok (some (ops.from_legacy m))
  new_memo none (some d) = ok (some (ops.from_data d))
  new_memo none none = ok none

  -- What becomes of a held transaction, if anything.
  unfoldable pub migrate_info : InfoReturn → Result (Option InfoReturn)
  migrate_info info = elim info.memo [
    | some m ↦ ok none
    | none ↦ elim (new_memo info.legacy_memo info.legacy_data) [
      | err e ↦ err e
      | ok none ↦ ok none
      | ok (some m) ↦
          ok (some (record info { legacy_memo = none; legacy_data = none; memo = some m }))
    ]
  ]

  unfoldable pub update_event : Value → Result (Option Value)
  update_event (event log) = elim log.content [
    | EventInfo.multisig_submit account info token ↦ elim (migrate_info info) [
      | err e ↦ err e
      | ok none ↦ ok none
      | ok (some i) ↦
          ok (some (event (record log { content = EventInfo.multisig_submit account i token })))
    ]
    | _ ↦ ok none
  ]
  update_event _ = err deserialization_error

  unfoldable pub update_multisig : Value → Result (Option Value)
  update_multisig (multisig t) = elim (migrate_info t.info) [
    | err e ↦ err e
    | ok none ↦ ok none
    | ok (some i) ↦ ok (some (multisig (record t { info = i })))
  ]
  update_multisig _ = err deserialization_error

module _ {S : Type 0} (p : Platform S) (ops : MemoOps) where
  unfoldable pub update_multisig_submit_events : Method S ⊤
  update_multisig_submit_events = do
    items ← gets (all_events p)
    batch ← lift (collect_updates (update_event ops) items)
    apply_to p batch
    commit_to p

  unfoldable pub update_multisig_storage : Method S ⊤
  update_multisig_storage = do
    items ← gets (all_multisig p ascending)
    batch ← lift (collect_updates (update_multisig ops) items)
    apply_to p batch
    commit_to p

  -- `initialize`
  unfoldable pub initialize_memos : Method S ⊤
  initialize_memos = do update_multisig_submit_events; update_multisig_storage

-- ===== src/Storage/Commit.antt =====
-- The commit of a block: src/many-ledger/src/storage/abci.rs; and the start of one:
-- src/many-ledger/src/module/abci.rs. A failure that is unwrapped panics.
pub mod Laws
use many_framework.Prelude.{⊤, ℕ, ◌+◌, ◌*◌, ◌%◌, ◌^◌, Bool, true, false, Option, none, some, Bytes}
use many_framework.Types.{Timestamp, Result, ok, err, panic}
use many_framework.Platform.{Platform}
use many_framework.Storage.State.{LedgerStorage, Action, Method, pure, raise, gets, ◌>>=◌, ◌>>◌}
use many_framework.Storage.Basic.{u64_mod, inc_height, commit_storage, set_time, get_height, hash}
use many_framework.Storage.Multisig.Expiry.{check_timed_out_multisig_transactions}

-- `HEIGHT_EVENTID_SHIFT`, as the factor that the shift multiplies by.
abbrev pub height_event_id_factor : ℕ
height_event_id_factor = 2 ^ 32

module _ {S : Type 0} (p : Platform S) where
  -- `let _ =`
  abbrev pub ignore : Action S ⊤ → Action S ⊤
  ignore m st = (ok tt, (m st).1)

  -- `expect`
  abbrev pub or_panic : {A : Type 0} → Action S A → Action S A
  or_panic m st = elim (m st).0 [ ok a ↦ (ok a, (m st).1) | err e ↦ (err panic, (m st).1) ]

  -- `MigrationSet::update_at_height` on the storage.
  unfoldable pub update_migrations : ℕ → Action S ⊤
  update_migrations height st = elim (p.update_at_height st.migrations st.persistent_store height) [
    | none ↦ (err panic, st)
    | some (m, s) ↦ (ok tt, record st { migrations = m; persistent_store = s })
  ]

  -- The end of `commit`: the hash, and the id that the events of the next block count from.
  unfoldable pub finish_block : ℕ → Action S Bytes
  finish_block height st =
      let root = p.root_hash st.persistent_store in
      (
        ok root,
        record st {
          current_hash = some root;
          latest_tid = p.id_from_u64 ((height * height_event_id_factor) % u64_mod);
        },
      )

  -- The answer is the hash; the other field of `AbciCommitInfo` is 0.
  unfoldable pub commit : Action S Bytes
  commit = do
    ignore (check_timed_out_multisig_transactions p)
    height ← or_panic (inc_height p)
    or_panic (commit_storage p)
    update_migrations ((height + 1) % u64_mod)
    or_panic (commit_storage p)
    finish_block height

  -- `begin_block`, once the time is a timestamp.
  unfoldable pub begin_block : Option Timestamp → LedgerStorage S → LedgerStorage S
  begin_block none st = st
  begin_block (some time) st = set_time p time st

  -- The height and the hash that `info` answers.
  unfoldable pub abci_info : LedgerStorage S → ℕ × Bytes
  abci_info st = (get_height p st, hash p st)

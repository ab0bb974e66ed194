-- ===== src/Storage/Multisig/Expiry.antt =====
-- Expiring held transactions: `check_timed_out_multisig_transactions` of
-- src/many-ledger/src/storage/multisig.rs.
use many_framework.Prelude.{⊤, ◌-◌, Bool, true, false, List, [], ◌∷◌, Bytes, ltb, leb}
use mathlib.Core.List.{reverse}
use many_framework.Types.{
  Timestamp, Value, put, multisig, Batch, Result, ok, err, MultisigTransactionState,
}
use many_framework.Platform.{Platform}
use many_framework.Storage.State.{Action, pure, gets, lift, ◌>>=◌, ◌>>◌}
use many_framework.Storage.Keys.{multisig_transactions_root}
use many_framework.Storage.Basic.{apply, maybe_commit, now}
use many_framework.Storage.Accounts.{multisig_maximum_timeout_in_secs}
use many_framework.Storage.Multisig.{as_multisig, disable, checked_time}

-- Whether the rest is older than any timeout: `duration_since` of a later creation is an error,
-- which does not end the loop.
abbrev pub is_too_old : Timestamp → Timestamp → Bool
is_too_old now creation = ltb multisig_maximum_timeout_in_secs (now - creation)

abbrev cons_result : Bytes → Value → Result Batch → Result Batch
cons_result k v (ok b) = ok ((k, put v) ∷ b)
cons_result k v (err e) = err e

-- The loop, on the transactions in the order of the iterator; the batch as it is filled.
unfoldable pub expired_batch : Timestamp → List (Bytes × Value) → Result Batch
expired_batch now [] = ok []
expired_batch now ((k, v) ∷ items) =
    let rest = expired_batch now items in
    elim (as_multisig v) [
      | err e ↦ err e
      | ok t ↦ elim (leb t.info.timeout now) [
        | true ↦ elim t.disabled [
          | true ↦ rest
          | false ↦ cons_result k (multisig (disable MultisigTransactionState.expired t)) rest
        ]
        | false ↦ elim (checked_time now) [
          | err e ↦ err e
          | ok time ↦ elim (is_too_old time t.creation) [ true ↦ ok [] | false ↦ rest ]
        ]
      ]
    ]

module _ {S : Type 0} (p : Platform S) where
  unfoldable pub apply_unless_empty : Batch → Action S ⊤
  apply_unless_empty [] = pure tt
  apply_unless_empty (e ∷ b) = apply p (e ∷ b)

  unfoldable pub check_timed_out_multisig_transactions : Action S ⊤
  check_timed_out_multisig_transactions = do
    items ← gets (λ st. p.iter_prefix st.persistent_store multisig_transactions_root)
    time ← gets (now p)
    batch ← lift (expired_batch time (reverse items))
    apply_unless_empty (reverse batch)
    maybe_commit p

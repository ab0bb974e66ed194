-- ===== src/Storage/Multisig/Timeouts.antt =====
-- Which held transactions the commit of a block expires.
use many_framework.Prelude.{
  ◌+◌, ◌≤◌, ◌<◌, ◌≡◌, refl, List, [], ◌∷◌, Bytes, leb, not, ◌&&◌, ◌^◌, if◌then◌else◌, arith,
}
use many_framework.Types.{
  Timestamp, Value, put, multisig, Batch, ok, MultisigTransactionState, MultisigTransactionStorage,
}
use many_framework.Storage.Accounts.{multisig_maximum_timeout_in_secs}
use many_framework.Storage.Multisig.{disable}
use many_framework.Storage.Multisig.Expiry.{expired_batch}

abbrev pub values : List (Bytes × MultisigTransactionStorage) → List (Bytes × Value)
values [] = []
values ((k, t) ∷ held) = (k, multisig t) ∷ values held

-- Every timeout is at most the maximum after the creation.
abbrev pub AreBounded : List (Bytes × MultisigTransactionStorage) → Type 0
AreBounded [] = Unit {0}
AreBounded ((k, t) ∷ held) =
    (t.info.timeout ≤ t.creation + multisig_maximum_timeout_in_secs) × AreBounded held

-- Each transaction that is timed out and not disabled yet, disabled as expired.
abbrev pub all_expired : Timestamp → List (Bytes × MultisigTransactionStorage) → Batch
all_expired now [] = []
all_expired now ((k, t) ∷ held) =
    let rest = all_expired now held in
    if leb t.info.timeout now && not t.disabled
    then (k, put (multisig (disable MultisigTransactionState.expired t))) ∷ rest
    else rest

-- Where the time is one of the system and no timeout is further than the maximum after the
-- creation of its transaction, the scan over the held transactions, in whatever order, never stops
-- early: it gives every transaction that is timed out and not disabled, disabled as expired.
pub expired_batch_lem :
    (now : Timestamp) (held : List (Bytes × MultisigTransactionStorage))
    → now < 2 ^ 63
    → AreBounded held
    → expired_batch now (values held) ≡ ok (all_expired now held)
unfolding expired_batch
expired_batch_lem now [] valid bounded = refl
expired_batch_lem now ((k, t) ∷ held) valid bounded =
    ground (arith, expired_batch_lem now held valid bounded.1, bounded.0)

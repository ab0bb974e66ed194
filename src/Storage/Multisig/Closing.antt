-- ===== src/Storage/Multisig/Closing.antt =====
-- The commit of a block closes each held transaction that is timed out.
use many_framework.Prelude.{
  ◌≡◌, refl, ◌≤◌, ◌<◌, ◌^◌, ◌∙◌, ap, Bool, true, false, ◌&&◌, not, leb, Option, none, some, List,
  [], ◌∷◌, Bytes, bytes_eq, bytes_lt, Bool-cases, inl, inr, if◌then◌else◌, arith,
}
use mathlib.Core.List.{reverse, reverse_aux}
use many_framework.Types.{
  Timestamp, Value, multisig, Batch, ok, MultisigTransactionState, MultisigTransactionStorage,
}
use many_framework.Platform.{Platform, IsPlatform, batch_get, is_sorted, ascending}
use many_framework.Storage.State.{LedgerStorage}
use many_framework.Storage.Keys.{multisig_transactions_root}
use many_framework.Storage.Basic.{now}
use many_framework.Storage.Basic.Laws.{
  written, value, apply_sorted, value-written, value-committed, maybe_commit_lem,
}
use many_framework.Storage.Iterator.Laws.{bytes_lt_trans}
use many_framework.Storage.Multisig.{disable}
use many_framework.Storage.Multisig.Expiry.{
  expired_batch, apply_unless_empty, check_timed_out_multisig_transactions,
}
use many_framework.Storage.Multisig.Timeouts.{values, AreBounded, all_expired, expired_batch_lem}

abbrev Held : Type 0
Held = List (Bytes × MultisigTransactionStorage)

reverse_aux-reverse_aux {ℓ} :
    {A : Type ℓ} (xs ys : List A) → reverse_aux (reverse_aux xs ys) [] ≡ reverse_aux ys xs
reverse_aux-reverse_aux [] ys = refl
reverse_aux-reverse_aux (x ∷ xs) ys = reverse_aux-reverse_aux xs (x ∷ ys)

values-reverse_aux :
    (xs ys : Held) → reverse_aux (values xs) (values ys) ≡ values (reverse_aux xs ys)
values-reverse_aux [] ys = refl
values-reverse_aux ((k, t) ∷ xs) ys = values-reverse_aux xs ((k, t) ∷ ys)

AreBounded-reverse_aux :
    (xs ys : Held) → AreBounded xs → AreBounded ys → AreBounded (reverse_aux xs ys)
AreBounded-reverse_aux [] ys h h' = h'
AreBounded-reverse_aux ((k, t) ∷ xs) ys h h' = AreBounded-reverse_aux xs ((k, t) ∷ ys) h.1 (h.0, h')

all_expired-reverse_aux :
    (time : Timestamp) (xs ys : Held)
    → all_expired time (reverse_aux xs ys) ≡ reverse_aux (all_expired time xs) (all_expired time ys)
all_expired-reverse_aux time [] ys = refl
all_expired-reverse_aux time ((k, t) ∷ xs) ys =
    elim (Bool-cases (leb t.info.timeout time && not t.disabled)) [
      | inl h ↦ ground (arith, h, all_expired-reverse_aux time xs ((k, t) ∷ ys))
      | inr h ↦ ground (arith, h, all_expired-reverse_aux time xs ((k, t) ∷ ys))
    ]

-- Whether the keys ascend, after a key and from the start.
abbrev follow : Bytes → Held → Bool
follow k [] = true
follow k ((j, t) ∷ held) = bytes_lt k j && follow j held

abbrev pub keys_ascend : Held → Bool
keys_ascend [] = true
keys_ascend ((k, t) ∷ held) = follow k held

-- The transaction that is held under a key.
abbrev pub held_under : Bytes → Held → Option MultisigTransactionStorage
held_under k [] = none
held_under k ((j, t) ∷ held) = if bytes_eq j k then some t else held_under k held

follow-below :
    (j k : Bytes) (held : Held) → bytes_lt j k ≡ true → follow k held ≡ true → follow j held ≡ true
follow-below j k [] h h' = refl
follow-below j k ((i, t) ∷ held) h h' = ground (arith, bytes_lt_trans j k i)

ascending-all_expired :
    (time : Timestamp) (k : Bytes) (held : Held)
    → follow k held ≡ true
    → ascending k (all_expired time held) ≡ true
ascending-all_expired time k [] h = refl
ascending-all_expired time k ((j, t) ∷ held) h = ground (
  arith,
  h,
  follow-below k j held,
  ascending-all_expired time j held,
  ascending-all_expired time k held,
)

all_expired-sorted :
    (time : Timestamp) (held : Held)
    → keys_ascend held ≡ true
    → is_sorted (all_expired time held) ≡ true
all_expired-sorted time [] h = refl
all_expired-sorted time ((k, t) ∷ []) h = ground arith
all_expired-sorted time ((k, t) ∷ (j, u) ∷ held) h = ground (
  arith,
  h,
  ascending-all_expired time k ((j, u) ∷ held) h,
  all_expired-sorted time ((j, u) ∷ held),
)

batch_get-all_expired :
    (time : Timestamp) (held : Held) (k : Bytes) (t : MultisigTransactionStorage)
    (old : Option Value)
    → held_under k held ≡ some t
    → t.info.timeout ≤ time
    → t.disabled ≡ false
    → batch_get (all_expired time held) k old
      ≡ some (multisig (disable MultisigTransactionState.expired t))
batch_get-all_expired time [] k t old h late enabled = cc
batch_get-all_expired time ((j, u) ∷ held) k t old h late enabled =
    elim (Bool-cases (bytes_eq j k)) [
      | inl same ↦ ground (arith, h, same, late, enabled)
      | inr other ↦ ground (arith, h, other, batch_get-all_expired time held k t old)
    ]

module _ {S : Type 0} (p : Platform S) (l : IsPlatform p) where
  apply_unless_empty_lem :
      (b : Batch) (st : LedgerStorage S) (k : Bytes)
      → is_sorted b ≡ true
      → (st' : LedgerStorage S) × (apply_unless_empty p b st ≡ (ok tt, st'))
        × (value p st' k ≡ batch_get b k (value p st k))
  unfolding apply_unless_empty
  apply_unless_empty_lem [] st k h = (st, refl, refl)
  apply_unless_empty_lem (e ∷ b) st k h =
      (written p (e ∷ b) st, apply_sorted p l (e ∷ b) st h, value-written p l (e ∷ b) st k h)

  scanned_batch :
      (time : Timestamp) (held : Held)
      → time < 2 ^ 63
      → AreBounded held
      → expired_batch time (reverse (values held)) ≡ ok (reverse (all_expired time held))
  scanned_batch time held valid bounded =
      ap (expired_batch time) (values-reverse_aux held [])
      ∙ expired_batch_lem time (reverse_aux held []) valid
          (AreBounded-reverse_aux held [] bounded tt)
      ∙ ap ok (all_expired-reverse_aux time held [])

  -- Where the iterator gives the held transactions by ascending keys, the time is one of the system
  -- and no timeout is further than the maximum after the creation of its transaction: the scan at
  -- the end of each block succeeds, and every transaction that is timed out and was not disabled
  -- is stored disabled, in the state expired.
  pub timed_out_closes :
      (st : LedgerStorage S) (held : List (Bytes × MultisigTransactionStorage)) (k : Bytes)
      (t : MultisigTransactionStorage)
      → p.iter_prefix st.persistent_store multisig_transactions_root ≡ values held
      → keys_ascend held ≡ true
      → now p st < 2 ^ 63
      → AreBounded held
      → held_under k held ≡ some t
      → t.info.timeout ≤ now p st
      → t.disabled ≡ false
      → let after = check_timed_out_multisig_transactions p st in
        (after.0 ≡ ok tt)
        × (value p after.1 k ≡ some (multisig (disable MultisigTransactionState.expired t)))
  unfolding check_timed_out_multisig_transactions
  timed_out_closes st held k t items ascend valid bounded found late enabled =
      let b = all_expired (now p st) held in
      let (st', applied, read) =
        apply_unless_empty_lem b st k (all_expired-sorted (now p st) held ascend) in
      let back = reverse_aux-reverse_aux b [] in
      let scan = scanned_batch (now p st) held valid bounded in
      let kept = maybe_commit_lem p st' in
      let closed = batch_get-all_expired (now p st) held k t (value p st k) found late enabled in
      (
        ground (arith, items, scan, back, applied, kept),
        ground (arith, items, scan, back, applied, kept, read, closed, value-committed p l st' k),
      )

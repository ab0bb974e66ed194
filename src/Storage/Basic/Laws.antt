-- ===== src/Storage/Basic/Laws.antt =====
-- What the store reads after a write, a commit or a sequence of these.
use many_framework.Prelude.{true, false, ◌≡◌, Option, Bytes, if◌then◌else◌, arith}
use many_framework.Types.{Value, Batch, ok, err, storage_apply_failed}
use many_framework.Platform.{Platform, IsPlatform, batch_get, is_sorted}
use many_framework.Storage.State.{LedgerStorage}
use many_framework.Storage.Basic.{apply, maybe_commit, commit_storage}

module _ {S : Type 0} (p : Platform S) where
  -- The storage after a batch that is accepted.
  unfoldable pub written : Batch → LedgerStorage S → LedgerStorage S
  written b st = record st { persistent_store = p.apply_unchecked st.persistent_store b }

  -- The storage after `maybe_commit`.
  unfoldable pub committed : LedgerStorage S → LedgerStorage S
  committed st =
      if st.blockchain then st else record st { persistent_store = p.commit st.persistent_store }

  -- The value under a key.
  abbrev pub value : LedgerStorage S → Bytes → Option Value
  value st k = p.get st.persistent_store k

  pub maybe_commit_lem : (st : LedgerStorage S) → maybe_commit p st ≡ (ok tt, committed st)
  unfolding maybe_commit commit_storage committed
  maybe_commit_lem st = ground arith

module _ {S : Type 0} (p : Platform S) (l : IsPlatform p) where
  pub apply_sorted :
      (b : Batch) (st : LedgerStorage S)
      → is_sorted b ≡ true
      → apply p b st ≡ (ok tt, written p b st)
  unfolding apply written
  apply_sorted b st h = ground (arith, l.apply_lem st.persistent_store b)

  pub apply_unsorted :
      (b : Batch) (st : LedgerStorage S)
      → is_sorted b ≡ false
      → apply p b st ≡ (err storage_apply_failed, st)
  unfolding apply
  apply_unsorted b st h = ground (arith, l.apply_lem st.persistent_store b)

  pub value-written :
      (b : Batch) (st : LedgerStorage S) (k : Bytes)
      → is_sorted b ≡ true
      → value p (written p b st) k ≡ batch_get b k (value p st k)
  unfolding written
  value-written b st k h = l.get-apply st.persistent_store b k h

  pub value-committed :
      (st : LedgerStorage S) (k : Bytes) → value p (committed p st) k ≡ value p st k
  unfolding committed
  value-committed st k = ground (arith, l.get-commit st.persistent_store k)

-- ===== src/Storage/Commit/Laws.antt =====
-- What a commit leaves.
use many_framework.Prelude.{◌+◌, ◌*◌, ◌%◌, ◌<◌, ◌≡◌, refl, some, [], ◌∷◌, arith}
use many_framework.Types.{ok, Batch, put, be_u64}
use many_framework.Platform.{Platform, IsPlatform, Migrations, be_number}
use many_framework.Storage.State.{LedgerStorage}
use many_framework.Storage.Keys.{height_root}
use many_framework.Storage.Basic.{u64_mod, inc_height, commit_storage, get_height, hash}
use many_framework.Storage.Basic.Laws.{written, apply_sorted}
use many_framework.Storage.Multisig.Expiry.{check_timed_out_multisig_transactions}
use many_framework.Storage.Commit.{
  height_event_id_factor, update_migrations, finish_block, commit, abci_info,
}

module _ {S : Type 0} (p : Platform S) where
  -- The store that the migrations of a block are run on.
  unfoldable pub counted : LedgerStorage S → LedgerStorage S
  counted st = written p ((height_root, put (be_u64 ((get_height p st + 1) % u64_mod))) ∷ []) st

module _ {S : Type 0} (p : Platform S) (l : IsPlatform p) where
  pub inc_height_lem :
      (st : LedgerStorage S) → inc_height p st ≡ (ok (get_height p st), counted p st)
  unfolding inc_height counted
  inc_height_lem st =
      let b : Batch = (height_root, put (be_u64 ((get_height p st + 1) % u64_mod))) ∷ [] in
      ground (arith, apply_sorted p l b st refl)

  -- Whatever becomes of the expiry of held transactions: where the migrations of the next height
  -- run, the commit of a block at a height below 2 ^ 32 answers the root hash that it keeps and that
  -- `info` then gives, and the ids of the next events count from the height times 2 ^ 32.
  pub commit_lem :
      (st : LedgerStorage S) (m : Migrations) (s : S)
      → let expired = (check_timed_out_multisig_transactions p st).1 in
        let height = get_height p expired in
        height < height_event_id_factor
        → p.update_at_height expired.migrations
            (p.commit (counted p expired).persistent_store)
            (height + 1)
          ≡ some (m, s)
        → let after = commit p st in
          (after.0 ≡ ok (p.root_hash (p.commit s)))
          × ((abci_info p after.1).1 ≡ p.root_hash (p.commit s))
          × (after.1.persistent_store ≡ p.commit s)
          × (be_number after.1.latest_tid ≡ height * height_event_id_factor)
  unfolding commit update_migrations finish_block commit_storage abci_info hash counted written
  commit_lem st m s low ran =
      let expired = (check_timed_out_multisig_transactions p st).1 in
      let height = get_height p expired in
      let step = inc_height_lem expired in
      let number = l.number-from_u64 ((height * height_event_id_factor) % u64_mod) in
      (
        ground (arith, step, ran, low),
        ground (arith, step, ran, low),
        ground (arith, step, ran, low),
        ground (arith, step, ran, low, number),
      )

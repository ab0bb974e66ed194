-- ===== src/Storage/Load/Laws.antt =====
-- A node that is loaded after a commit is the node that committed, but for its time and migrations.
use many_framework.Prelude.{◌+◌, ◌<◌, ◌≡◌, Option, none, some, arith}
use many_framework.Types.{ok, be_u64}
use many_framework.Platform.{Platform, IsPlatform, Migrations}
use many_framework.Storage.State.{LedgerStorage}
use many_framework.Storage.Keys.{height_root}
use many_framework.Storage.Basic.{commit_storage, get_height, hash}
use many_framework.Storage.Basic.Laws.{written}
use many_framework.Storage.Multisig.Expiry.{check_timed_out_multisig_transactions}
use many_framework.Storage.Commit.{
  height_event_id_factor, update_migrations, finish_block, commit, abci_info,
}
use many_framework.Storage.Commit.Laws.{counted, inc_height_lem}
use many_framework.Storage.Load.{MigrationOps, configured, load}

module _ {S Config : Type 0} (p : Platform S) (l : IsPlatform p) (ops : MigrationOps Config) where
  -- Where the migrations of the next height run, leave the height as it is counted and can be
  -- loaded: a node that is loaded from what the commit of a block stored, at a height below
  -- 2 ^ 32, is the node that committed it but for the time and the migrations. It answers `info` as
  -- that one does and counts event ids from the same id.
  pub load-commit :
      (st : LedgerStorage S) (m loaded : Migrations) (s : S) (config : Option Config)
      → let expired = (check_timed_out_multisig_transactions p st).1 in
        let height = get_height p expired in
        let after = (commit p st).1 in
        height < height_event_id_factor
        → p.update_at_height expired.migrations
            (p.commit (counted p expired).persistent_store)
            (height + 1)
          ≡ some (m, s)
        → p.get s height_root ≡ some (be_u64 (height + 1))
        → configured ops config (height + 1) ≡ some loaded
        → let again = record after {
          current_time = none;
          current_hash = none;
          migrations = loaded;
        } in
          (load p ops after.persistent_store after.blockchain config ≡ ok again)
          × (abci_info p again ≡ abci_info p after)
  unfolding load commit update_migrations finish_block commit_storage abci_info hash get_height
      counted written
  load-commit st m loaded s config low ran kept found =
      let expired = (check_timed_out_multisig_transactions p st).1 in
      let step = inc_height_lem p l expired in
      let read = l.get-commit s height_root in
      (
        ground (arith, step, ran, kept, found, read, low),
        ground (arith, step, ran, kept, read, low),
      )

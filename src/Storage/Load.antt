-- ===== src/Storage/Load.antt =====
-- Opening the storage of a ledger that ran before: `load` of src/many-ledger/src/storage.rs. Its
-- first argument is the store as merk opens it: what was committed last. How a configuration of
-- migrations is loaded at a height (many-migration) is a parameter.
pub mod Laws
use many_framework.Prelude.{ℕ, ◌*◌, ◌-◌, ◌%◌, Bool, Option, none, some}
use many_framework.Types.{Result, ok, err, unable_to_load_migrations}
use many_framework.Platform.{Platform, Migrations}
use many_framework.Storage.State.{LedgerStorage}
use many_framework.Storage.Keys.{height_root}
use many_framework.Storage.Basic.{counter_or_zero, u64_mod}
use many_framework.Storage.Commit.{height_event_id_factor}

-- `LedgerMigrations::load` and `MigrationSet::empty`
pub record MigrationOps (Config : Type 0) : Type 0 where
  pub load_set : Config → ℕ → Option Migrations
  pub empty_set : Option Migrations

abbrev pub configured :
    {Config : Type 0} → MigrationOps Config → Option Config → ℕ → Option Migrations
configured ops none height = ops.empty_set
configured ops (some config) height = ops.load_set config height

module _ {S Config : Type 0} (p : Platform S) (ops : MigrationOps Config) where
  -- `height.saturating_sub(1)`, shifted
  unfoldable pub load : S → Bool → Option Config → Result (LedgerStorage S)
  load persistent_store blockchain config =
      let height = counter_or_zero (p.get persistent_store height_root) in
      elim (configured ops config height) [
        | none ↦ err unable_to_load_migrations
        | some m ↦ ok (record {
          persistent_store = persistent_store;
          blockchain = blockchain;
          latest_tid = p.id_from_u64 (((height - 1) * height_event_id_factor) % u64_mod);
          current_time = none;
          current_hash = none;
          migrations = m;
        })
      ]

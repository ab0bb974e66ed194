-- ===== src/Migration/Tokens/Laws.antt =====
-- Accounts that are created after the migration continue the numbering of those before.
use many_framework.Prelude.{◌≡◌, refl, ℕ, true, false, none, some, bytes_eq_refl, [], ◌∷◌, arith}
use many_framework.Types.{Address, put, delete, Batch, address, be_u32, ok}
use many_framework.Platform.{Platform, IsPlatform, token_migration}
use many_framework.Storage.State.{LedgerStorage}
use many_framework.Storage.Keys.{
  identity_root, account_identity_root, account_subresource_id_root, key_for_subresource_counter,
}
use many_framework.Storage.Basic.{
  counter_or_zero, get_subresource_counter, identity_or_server, get_identity,
}
use many_framework.Migration.Store.{apply_to}
use many_framework.Migration.Tokens.{migrate_account_identity}

module _ {S : Type 0} (p : Platform S) (l : IsPlatform p) where
  abbrev account_batch : Address → ℕ → Batch
  account_batch id n =
      (account_subresource_id_root, delete)
      ∷ (account_identity_root, put (address id))
      ∷ (key_for_subresource_counter p.identity id true, put (be_u32 n))
      ∷ []

  migrate_account_identity_lem :
      (store : S) (id : Address)
      → p.get store identity_root ≡ some (address id)
      → migrate_account_identity p store ≡ (
        ok tt,
        p.apply_unchecked store
            (account_batch id (counter_or_zero (p.get store account_subresource_id_root))),
      )
  unfolding migrate_account_identity apply_to key_for_subresource_counter
  migrate_account_identity_lem store id h =
      let n = counter_or_zero (p.get store account_subresource_id_root) in
      ground (arith, h, l.apply_lem store (account_batch id n))

  -- Where the server has an identity, moving the account identity succeeds; once the migration is
  -- active, the accounts are subresources of the same identity as before, and the next one has the
  -- number it would have had.
  pub migrate_account_identity_continues :
      (before after : LedgerStorage S) (id : Address)
      → p.get before.persistent_store identity_root ≡ some (address id)
      → p.get before.persistent_store account_identity_root ≡ none
      → before.migrations.is_active token_migration ≡ false
      → after.migrations.is_active token_migration ≡ true
      → after.persistent_store ≡ (migrate_account_identity p before.persistent_store).1
      → ((migrate_account_identity p before.persistent_store).0 ≡ ok tt)
        × (get_subresource_counter p id after ≡ get_subresource_counter p id before)
        × ((identity_or_server p account_identity_root after).0
            ≡ (identity_or_server p account_identity_root before).0)
  unfolding get_subresource_counter identity_or_server get_identity key_for_subresource_counter
  migrate_account_identity_continues before after id h no_own off on run =
      let s = before.persistent_store in
      let n = counter_or_zero (p.get s account_subresource_id_root) in
      let moved = migrate_account_identity_lem s id h in
      let b = account_batch id n in
      let counter = l.get-apply s b (key_for_subresource_counter p.identity id true) refl in
      let root = l.get-apply s b account_identity_root refl in
      (
        ground (arith, moved),
        ground (
          arith,
          moved,
          run,
          on,
          off,
          counter,
          bytes_eq_refl (key_for_subresource_counter p.identity id true),
        ),
        ground (arith, moved, run, h, no_own, root),
      )

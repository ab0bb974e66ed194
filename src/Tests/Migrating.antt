-- ===== src/Tests/Migrating.antt =====
-- The migrations on the sample platform.
use many_framework.Prelude.{◌≡◌, refl, false, [], ◌∷◌, arith}
use many_framework.Types.{put, amount, address, be_u32, ok}
use many_framework.Platform.{Migrations}
use many_framework.Storage.State.{LedgerStorage}
use many_framework.Storage.Keys.{
  key_for_account_balance, identity_root, account_identity_root, account_subresource_id_root,
}
use many_framework.Storage.Basic.{get_subresource_counter, identity_or_server}
use many_framework.Storage.Data.Counted.{IsCounted}
use many_framework.Migration.Data.{initialize_data}
use many_framework.Migration.Data.Laws.{Funds, holdings, initialize_data-IsCounted}
use many_framework.Migration.Tokens.{migrate_account_identity}
use many_framework.Migration.Tokens.Laws.{migrate_account_identity_continues}
use many_framework.Tests.Sample.{Store, identity, platform, storage_of, all_active}
use many_framework.Tests.SampleLaws.{platform-IsPlatform}

abbrev two_funds : Funds
two_funds = ((2, 5), 100) ∷ ((3, 5), 0) ∷ []

abbrev uncounted : LedgerStorage Store
uncounted = storage_of (
    (key_for_account_balance identity 2 5, put (amount 100))
    ∷ (key_for_account_balance identity 3 5, put (amount 0))
    ∷ [])

initialize_data-IsCounted_example :
    let after = initialize_data platform uncounted.persistent_store in
    (after.0 ≡ ok tt)
    × IsCounted platform (holdings two_funds) (record uncounted { persistent_store = after.1 })
unfolding key_for_account_balance
initialize_data-IsCounted_example =
    initialize_data-IsCounted platform platform-IsPlatform uncounted two_funds refl
      (refl, (refl, tt)) (omega arith)

abbrev none_active : Migrations
none_active = record { is_active = λ m. false; hotfix_at = λ m h. false }

-- The server is the address 9, and its accounts have the numbers up to 3.
abbrev numbered : LedgerStorage Store
numbered =
    record (storage_of
      ((identity_root, put (address 9)) ∷ (account_subresource_id_root, put (be_u32 4)) ∷ [])) {
        migrations = none_active;
      }

abbrev renumbered : LedgerStorage Store
renumbered = record numbered {
  persistent_store = (migrate_account_identity platform numbered.persistent_store).1;
  migrations = all_active;
}

migrate_account_identity_continues_example :
    ((migrate_account_identity platform numbered.persistent_store).0 ≡ ok tt)
    × (get_subresource_counter platform 9 renumbered ≡ get_subresource_counter platform 9 numbered)
    × ((identity_or_server platform account_identity_root renumbered).0
        ≡ (identity_or_server platform account_identity_root numbered).0)
migrate_account_identity_continues_example =
    migrate_account_identity_continues platform platform-IsPlatform numbered renumbered 9 refl refl
      refl refl refl

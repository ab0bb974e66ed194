-- ===== src/Tests/Reached.antt =====
-- A reached storage on the sample platform: an account is created in it.
use many_framework.Prelude.{◌≡◌, refl, true, none, some, [], ◌∷◌, arith}
use many_framework.Types.{put, address, owner, Account, CreateArgs, ok}
use many_framework.Storage.State.{LedgerStorage}
use many_framework.Storage.Keys.{
  identity_root, key_for_account, key_for_event, key_for_subresource_counter,
}
use many_framework.Storage.Accounts.{
  get_account_even_disabled, validate_account, validate_features_for_account,
  validate_roles_for_account, roles_given, allowed_roles, add_account, add_new_account,
  set_up_multisig, log_if, commit_account,
}
use many_framework.Storage.Event.{log_event, new_event_id}
use many_framework.Storage.Basic.{
  get_next_subresource, identity_or_server, get_identity, find_counter, get_subresource_counter,
  get_symbols, get_symbols_by_key, parse_symbols, skip_symbols, use_counter, apply, maybe_commit,
  commit_storage, now,
}
use many_framework.Module.Accounts as Accounts
use many_framework.Invariant.Sound.{Sound}
use many_framework.Invariant.Requests.{Request, handle}
use many_framework.Invariant.Reach.{Reach, every_account_owns_itself}
use many_framework.Tests.Sample.{Store, platform, storage_of}
use many_framework.Tests.SampleLaws.{platform-IsPlatform}
use many_framework.Tests.Credentials.{one_word, any_key}

abbrev founded : LedgerStorage Store
founded = storage_of ((identity_root, put (address 9)) ∷ [])

founded-Sound : Sound platform founded
founded-Sound = record { at = λ k. ground arith }

abbrev new_account : CreateArgs
new_account = record {
  description = none;
  roles = none;
  features = (record { id = 0; argument = none }) ∷ [];
}

abbrev settled : LedgerStorage Store
settled = handle platform one_word any_key 3 2 (Request.account_create new_account) founded

abbrev created : Account
created = record {
  description = none;
  roles = (900, owner ∷ []) ∷ (2, owner ∷ []) ∷ [];
  features = (record { id = 0; argument = none }) ∷ [];
  disabled = none;
}

created_found : (get_account_even_disabled platform 900 settled).0 ≡ ok (some created)
unfolding handle Accounts.create validate_account validate_features_for_account
    validate_roles_for_account roles_given allowed_roles add_account add_new_account
    get_next_subresource identity_or_server get_identity find_counter get_subresource_counter
    get_symbols get_symbols_by_key parse_symbols skip_symbols use_counter apply set_up_multisig
    log_if log_event new_event_id commit_account maybe_commit commit_storage
    get_account_even_disabled key_for_account key_for_event key_for_subresource_counter now
created_found = refl

every_account_owns_itself_example : platform.has_role created 900 owner ≡ true
every_account_owns_itself_example =
    every_account_owns_itself platform platform-IsPlatform one_word any_key founded founded-Sound
      {st = settled} 900 created
      (Reach.request 3 2 (Request.account_create new_account) tt Reach.start) created_found

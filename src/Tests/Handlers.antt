-- ===== src/Tests/Handlers.antt =====
-- Account operations, handlers and keys on the sample platform.
use many_framework.Prelude.{
  ◌≡◌, ◌≢◌, refl, ◌≤◌, ◌<◌, ◌+◌, true, false, none, some, [], ◌∷◌, ◌&&◌, ◌⊎◌, not, arith,
}
use many_framework.Types.{
  put, account, address, ok, err, Address, Role, can_multisig_approve, RolesArgs,
  SetDescriptionArgs, SendArgs, user_needs_role, unauthorized, invalid_sender, out_of_fuel,
  account_must_own_itself,
}
use many_framework.Platform.{holds_role}
use many_framework.Storage.State.{LedgerStorage}
use many_framework.Storage.Keys.{key_for_account, identity_root, token_identity_root}
use many_framework.Storage.Basic.{get_identity, skip_symbols}
use many_framework.Storage.Basic.Laws.{value}
use many_framework.Storage.Basic.Subresources.{skip_symbols-ne-out_of_fuel}
use many_framework.Storage.Accounts.{
  get_account, get_account_even_disabled, remove_roles, names_owner, remove_all_roles,
}
use many_framework.Storage.Accounts.Laws.{Stored, OwnsItself, remove_roles_lem}
use many_framework.Module.Accounts as Accounts
use many_framework.Module.Send as Send
use many_framework.Module.Tokens.{token_identity, mint, burn}
use many_framework.Module.Authority.{
  only_owners_change, stranger_cannot_send, only_token_identity_mints,
}
use many_framework.Tests.Sample.{Store, identity, platform, storage_of}
use many_framework.Tests.SampleLaws.{platform-IsPlatform}
use many_framework.Tests.Held.{shared_account}

abbrev described : LedgerStorage Store
described = storage_of (
    (key_for_account identity 7, put (account shared_account))
    ∷ (identity_root, put (address 9))
    ∷ (token_identity_root, put (address 9))
    ∷ [])

abbrev approver : RolesArgs
approver = record { account = 7; roles = (3, can_multisig_approve ∷ []) ∷ [] }

abbrev words : SetDescriptionArgs
words = record { account = 7; description = [] }

abbrev payment : SendArgs
payment = record { from = some 7; to = 4; symbol = 5; amount = 1; memo = none }

described-OwnsItself : OwnsItself platform described
unfolding key_for_account
described-OwnsItself id a e = ground arith

remove_roles_lem_example :
    let after = remove_roles platform shared_account approver described in
    ((names_owner 7 approver.roles ≡ true) × (after ≡ (err account_must_own_itself, described)))
    ⊎ ((names_owner 7 approver.roles ≡ false)
        × (after.0 ≡ ok tt)
        × Stored platform after.1 7 (remove_all_roles platform approver.roles shared_account)
        × ((i : Address) (r : Role)
            → platform.has_role (remove_all_roles platform approver.roles shared_account) i r
              ≡ (not (holds_role approver.roles i r) && platform.has_role shared_account i r))
        × ((j : Address)
            → j ≢ 7
            → value platform after.1 (key_for_account identity j)
              ≡ value platform described (key_for_account identity j)))
remove_roles_lem_example =
    remove_roles_lem platform platform-IsPlatform shared_account approver described

only_owners_change_example :
    (Accounts.set_description platform 2 words described ≡ (err user_needs_role, described))
    × (Accounts.add_roles platform 2 approver described ≡ (err user_needs_role, described))
    × (Accounts.remove_roles platform 2 approver described ≡ (err user_needs_role, described))
    × (Accounts.disable platform 2 7 described ≡ (err user_needs_role, described))
unfolding get_account get_account_even_disabled key_for_account
only_owners_change_example =
    only_owners_change platform 2 shared_account words approver 7 described refl refl refl refl

stranger_cannot_send_example :
    let after = Send.send platform 2 payment described in
    (after ≡ (err unauthorized, described)) ⊎ (after ≡ (err user_needs_role, described))
unfolding get_account get_account_even_disabled key_for_account
stranger_cannot_send_example =
    stranger_cannot_send platform platform-IsPlatform 2 7 payment shared_account described refl refl
      refl refl refl

only_token_identity_mints_example :
    (mint platform 2 5 ((2, 10) ∷ []) none described ≡ (err invalid_sender, described))
    × (burn platform 2 5 ((2, 10) ∷ []) none none described ≡ (err invalid_sender, described))
unfolding token_identity get_identity key_for_account
only_token_identity_mints_example =
    only_token_identity_mints platform platform-IsPlatform 2 9 5 ((2, 10) ∷ []) none none described
      refl refl refl

fuel_left : 99 < 5 + 95
fuel_left = omega arith

in_range : 5 ≤ 99
in_range = omega arith

skip_symbols-ne-out_of_fuel_example :
    skip_symbols platform 95 (905 ∷ 906 ∷ []) 9 5 905 ≢ err out_of_fuel
skip_symbols-ne-out_of_fuel_example =
    skip_symbols-ne-out_of_fuel platform 95 (905 ∷ 906 ∷ []) 9 5 905 fuel_left in_range

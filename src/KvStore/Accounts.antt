-- ===== src/KvStore/Accounts.antt =====
-- The accounts of the key-value store: src/many-kvstore/src/storage/account.rs, and the checks of
-- src/many-kvstore/src/module/account.rs. The loops over roles and features are those of the ledger,
-- whose code is the same.
use many_framework.Prelude.{
  ⊤, Bool, true, false, Option, none, some, List, [], ◌∷◌, any, all, unwrap_or, if◌then◌else◌, not,
}
use many_framework.Types.{
  Address, Role, role_eq, owner, Account, left, Value, account, put, EventInfo, Result, ok, err,
  SetDescriptionArgs, RolesArgs, AddFeaturesArgs, unknown_account, account_must_own_itself,
  unknown_role,
}
use many_framework.Platform.{Platform}
use many_framework.Storage.State.{pure, gets, lift, or_raise, raise_if, ◌>>=◌, ◌>>◌}
use many_framework.Storage.Keys.{key_for_account}
use many_framework.Storage.Accounts.{
  is_enabled, keep_enabled, names_owner, add_all_roles, remove_all_roles, insert_features,
  insert_all_roles, unless_absent, is_ok, then_check, roles_given,
}
use many_framework.KvStore.Store.{
  Call, kv_apply, commit_unless_blockchain, new_subresource_id, kv_log_event,
}

abbrev account_or_none : Option Value → Option Account
account_or_none (some (account a)) = some a
account_or_none _ = none

module _ {S : Type 0} (p : Platform S) where
  unfoldable pub validate_kv_features : Account → Result ⊤
  validate_kv_features a = unless_absent (p.get_feature a.features p.account_kv_store_id)

  unfoldable pub allowed_kv_roles : Account → List Role
  allowed_kv_roles a =
      owner
      ∷ (if is_ok (p.get_feature a.features p.account_kv_store_id)
          then p.feature_roles p.account_kv_store_id
          else [])

  unfoldable pub validate_kv_roles : Account → Result ⊤
  validate_kv_roles a =
      if all (λ r. any (role_eq r) (allowed_kv_roles a)) (roles_given a.roles)
      then ok tt
      else err unknown_role

  unfoldable pub validate_kv_account : Account → Result ⊤
  validate_kv_account a = then_check (validate_kv_features a) (validate_kv_roles a)

  unfoldable pub get_kv_roles : Account → List Role
  get_kv_roles a =
      if p.has_id a.features p.account_kv_store_id
      then p.feature_roles p.account_kv_store_id
      else []

  -- What does not decode is no account.
  unfoldable pub kv_account_even_disabled : Address → Call p (Option Account)
  kv_account_even_disabled id =
      gets (λ st. account_or_none (p.get st.persistent_store (key_for_account p.identity id)))

  unfoldable pub kv_account : Address → Call p (Option Account)
  kv_account id = do found ← kv_account_even_disabled id; pure (keep_enabled found)

  unfoldable pub commit_kv_account : Address → Account → Call p ⊤
  commit_kv_account id a = do
    kv_apply p ((key_for_account p.identity id, put (account a)) ∷ [])
    commit_unless_blockchain p

  unfoldable pub log_kv_if : Bool → EventInfo → Call p ⊤
  log_kv_if true content = kv_log_event p content
  log_kv_if false content = pure tt

  unfoldable pub add_new_kv_account : Account → Bool → Call p Address
  add_new_kv_account a add_event = do
    id ← new_subresource_id p
    let new = p.add_role a id owner
    log_kv_if add_event (EventInfo.account_create id new.description new.roles new.features)
    commit_kv_account id new
    pure id

  unfoldable pub add_kv_account : Account → Call p Address
  add_kv_account a = add_new_kv_account a true

  unfoldable pub set_kv_description : Account → SetDescriptionArgs → Call p ⊤
  set_kv_description a args = do
    kv_log_event p (EventInfo.account_set_description args.account args.description)
    commit_kv_account args.account (record a { description = some args.description })

  unfoldable pub add_kv_roles : Account → RolesArgs → Call p ⊤
  add_kv_roles a args = do
    kv_log_event p (EventInfo.account_add_roles args.account args.roles)
    commit_kv_account args.account (add_all_roles p args.roles a)

  unfoldable pub remove_kv_roles : Account → RolesArgs → Call p ⊤
  remove_kv_roles a args = do
    raise_if (names_owner args.account args.roles) account_must_own_itself
    kv_log_event p (EventInfo.account_remove_roles args.account args.roles)
    commit_kv_account args.account (remove_all_roles p args.roles a)

  unfoldable pub add_kv_features : Account → AddFeaturesArgs → Call p ⊤
  add_kv_features a args = do
    features ← lift (insert_features p args.features a.features)
    let new = record a {
      features = features;
      roles = insert_all_roles (unwrap_or args.roles []) a.roles;
    }
    lift (validate_kv_account new)
    kv_log_event p
        (EventInfo.account_add_features args.account (unwrap_or args.roles []) args.features)
    commit_kv_account args.account new

  unfoldable pub disable_kv_account : Address → Call p ⊤
  disable_kv_account id = do
    found ← kv_account_even_disabled id
    a ← or_raise found (unknown_account id)
    raise_if (not (is_enabled a.disabled)) (unknown_account id)
    commit_kv_account id (record a { disabled = some (left true) })
    kv_log_event p (EventInfo.account_disable id)
    commit_unless_blockchain p

-- ===== src/KvStore/AccountHandlers.antt =====
-- The account handlers of the key-value store: src/many-kvstore/src/module/account.rs.
use many_framework.Prelude.{⊤, List, [], ◌∷◌, not}
use many_framework.Types.{
  Address, Role, owner, Account, CreateArgs, SetDescriptionArgs, RolesArgs, AddFeaturesArgs,
  unknown_account, user_needs_role, empty_feature,
}
use many_framework.Platform.{Platform}
use many_framework.Storage.State.{pure, lift, or_raise, raise_if, ◌>>=◌, ◌>>◌}
use many_framework.KvStore.Store.{Call}
use many_framework.KvStore.Accounts.{
  validate_kv_account, get_kv_roles, kv_account, kv_account_even_disabled, add_kv_account,
  set_kv_description, add_kv_roles, remove_kv_roles, add_kv_features, disable_kv_account,
}
use many_framework.Module.Accounts.{is_empty}

module _ {S : Type 0} (p : Platform S) where
  unfoldable pub find_kv_account : Address → Call p Account
  find_kv_account id = do found ← kv_account p id; or_raise found (unknown_account id)

  unfoldable pub find_kv_owned : Address → Address → Call p Account
  find_kv_owned sender id = do
    a ← find_kv_account id
    raise_if (not (p.has_role a sender owner)) user_needs_role
    pure a

  unfoldable pub create_kv : Address → CreateArgs → Call p Address
  create_kv sender args = do
    raise_if (is_empty args.features) empty_feature
    let a = p.create_account sender args
    lift (validate_kv_account p a)
    add_kv_account p a

  unfoldable pub describe_kv : Address → SetDescriptionArgs → Call p ⊤
  describe_kv sender args = do a ← find_kv_owned sender args.account; set_kv_description p a args

  unfoldable pub list_kv_roles : Address → Call p (List Role)
  list_kv_roles id = do a ← find_kv_account id; pure (get_kv_roles p a)

  unfoldable pub grant_kv_roles : Address → RolesArgs → Call p ⊤
  grant_kv_roles sender args = do a ← find_kv_owned sender args.account; add_kv_roles p a args

  unfoldable pub revoke_kv_roles : Address → RolesArgs → Call p ⊤
  revoke_kv_roles sender args = do a ← find_kv_owned sender args.account; remove_kv_roles p a args

  unfoldable pub info_kv : Address → Call p Account
  info_kv id = do found ← kv_account_even_disabled p id; or_raise found (unknown_account id)

  unfoldable pub disable_kv : Address → Address → Call p ⊤
  disable_kv sender id = do a ← find_kv_owned sender id; disable_kv_account p id

  unfoldable pub extend_kv : Address → AddFeaturesArgs → Call p ⊤
  extend_kv sender args = do
    raise_if (is_empty args.features) empty_feature
    a ← find_kv_account args.account
    lift (p.needs_role a sender (owner ∷ []))
    add_kv_features p a args

-- ===== src/Module/Accounts.antt =====
-- The account handlers: src/many-ledger/src/module/account.rs.
use many_framework.Prelude.{⊤, Bool, true, false, List, [], ◌∷◌, not}
use many_framework.Types.{
  Address, Role, owner, Account, CreateArgs, SetDescriptionArgs, RolesArgs, AddFeaturesArgs,
  unknown_account, user_needs_role, empty_feature,
}
use many_framework.Platform.{Platform}
use many_framework.Storage.State.{Action, pure, lift, or_raise, raise_if, ◌>>=◌, ◌>>◌}
use many_framework.Storage.Accounts as Storage
use many_framework.Storage.Accounts.{
  get_account, get_account_even_disabled, validate_account, get_roles_for_account,
}

abbrev pub is_empty {ℓ} : {A : Type ℓ} → List A → Bool
is_empty [] = true
is_empty (x ∷ xs) = false

module _ {S : Type 0} (p : Platform S) where
  -- The account of an address, where it exists and is enabled.
  unfoldable pub find_account : Address → Action S Account
  find_account id = do found ← get_account p id; or_raise found (unknown_account id)

  -- That account, where the sender owns it.
  unfoldable pub find_owned : Address → Address → Action S Account
  find_owned sender id = do
    a ← find_account id
    raise_if (not (p.has_role a sender owner)) user_needs_role
    pure a

  unfoldable pub create : Address → CreateArgs → Action S Address
  create sender args = do
    raise_if (is_empty args.features) empty_feature
    let a = p.create_account sender args
    lift (validate_account p a)
    Storage.add_account p a

  unfoldable pub set_description : Address → SetDescriptionArgs → Action S ⊤
  set_description sender args = do
    a ← find_owned sender args.account
    Storage.set_description p a args

  unfoldable pub list_roles : Address → Address → Action S (List Role)
  list_roles sender id = do a ← find_account id; pure (get_roles_for_account p a)

  unfoldable pub add_roles : Address → RolesArgs → Action S ⊤
  add_roles sender args = do a ← find_owned sender args.account; Storage.add_roles p a args

  unfoldable pub remove_roles : Address → RolesArgs → Action S ⊤
  remove_roles sender args = do a ← find_owned sender args.account; Storage.remove_roles p a args

  -- The account as it is stored, disabled or not.
  unfoldable pub info : Address → Address → Action S Account
  info sender id = do found ← get_account_even_disabled p id; or_raise found (unknown_account id)

  unfoldable pub disable : Address → Address → Action S ⊤
  disable sender id = do a ← find_owned sender id; Storage.disable_account p id

  unfoldable pub add_features : Address → AddFeaturesArgs → Action S ⊤
  add_features sender args = do
    raise_if (is_empty args.features) empty_feature
    a ← find_account args.account
    lift (p.needs_role a sender (owner ∷ []))
    Storage.add_features p a args

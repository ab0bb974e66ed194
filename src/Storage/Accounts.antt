-- ===== src/Storage/Accounts.antt =====
-- Accounts: src/many-ledger/src/storage/account.rs. The store never refuses a batch of one entry,
-- so the error of `commit_account` is that of `apply`.
mod Validation
pub mod Laws
pub mod Ownership
pub mod Roles
unfoldable pub use Validation.*
use many_framework.Prelude.{
  ⊤, ℕ, ◌+◌, ◌-◌, ◌*◌, Bool, true, false, Option, none, some, List, [], ◌∷◌, Bytes, ◌==◌, ◌||◌,
  ◌&&◌, any, is_some, ltb, if◌then◌else◌, unwrap_or,
}
use Prim.Native.Nat.{min}
use many_framework.Types.{
  Address, Role, role_eq, owner, can_multisig_approve, can_multisig_submit, RoleMap, Account,
  Feature, FeatureSet, MultisigArg, Either, left, right, Value, account, put, EventInfo, Result, ok,
  err, SetDescriptionArgs, RolesArgs, AddFeaturesArgs, unknown_account, account_must_own_itself,
  unauthorized, deserialization_error, unknown, feature_already_part, address,
  unexpected_subresource_id, unexpected_account_id,
}
use many_framework.Platform.{Platform, token_migration}
use many_framework.Storage.State.{
  LedgerStorage, Action, pure, raise, gets, lift, or_raise, raise_if, ◌>>=◌, ◌>>◌,
}
use many_framework.Storage.Keys.{account_identity_root, identity_root, key_for_account}
use many_framework.Storage.Basic.{get, apply, maybe_commit, get_identity, get_next_subresource}
use many_framework.Storage.Event.{log_event}

abbrev pub multisig_default_threshold : ℕ
multisig_default_threshold = 1

abbrev pub multisig_default_timeout_in_secs : ℕ
multisig_default_timeout_in_secs = 60 * 60 * 24

abbrev pub multisig_default_execute_automatically : Bool
multisig_default_execute_automatically = false

abbrev pub multisig_maximum_timeout_in_secs : ℕ
multisig_maximum_timeout_in_secs = 185 * 60 * 60 * 24

abbrev pub as_account : Value → Result Account
as_account (account a) = ok a
as_account _ = err deserialization_error

-- `disabled.is_none() || disabled == Some(Either::Left(false))`
abbrev pub is_enabled : Option (Either Bool Bytes) → Bool
is_enabled none = true
is_enabled (some (left b)) = elim b [ true ↦ false | false ↦ true ]
is_enabled (some (right reason)) = false

-- The holders of a role that may approve.
unfoldable pub count_approvers : RoleMap → ℕ
count_approvers [] = 0
count_approvers ((id, rs) ∷ m) =
    (if any (role_eq owner) rs
        || any (role_eq can_multisig_approve) rs
        || any (role_eq can_multisig_submit) rs
      then 1
      else 0)
    + count_approvers m

-- The multisig feature of a new account: each setting that is not given gets its default.
abbrev pub new_multisig : RoleMap → MultisigArg → MultisigArg
new_multisig roles m = record {
  threshold = some (unwrap_or m.threshold (count_approvers roles - 1));
  timeout_in_secs = some (elim m.timeout_in_secs [
    | none ↦ multisig_default_timeout_in_secs
    | some v ↦ min multisig_maximum_timeout_in_secs v
  ]);
  execute_automatically =
      some (unwrap_or m.execute_automatically multisig_default_execute_automatically);
}

-- What `with_account` is given for an account.
pub record AccountMeta : Type 0 where
  pub id : Option Address
  pub subresource_id : Option ℕ
  pub description : Option Bytes
  pub roles : RoleMap
  pub features : FeatureSet

abbrev pub keep_enabled : Option Account → Option Account
keep_enabled none = none
keep_enabled (some a) = if is_enabled a.disabled then some a else none

-- `contains_key` and `get` of the same key.
abbrev pub names_owner : Address → RoleMap → Bool
names_owner id [] = false
names_owner id ((j, rs) ∷ m) = if j == id then any (role_eq owner) rs else names_owner id m

-- `entry(id).or_default().insert(role)`
unfoldable pub insert_role : Address → Role → RoleMap → RoleMap
insert_role id r [] = (id, r ∷ []) ∷ []
insert_role id r ((j, rs) ∷ m) =
    let rest = insert_role id r m in
    if j == id
    then (j, if any (role_eq r) rs then rs else r ∷ rs) ∷ m
    else (if ltb id j then (id, r ∷ []) ∷ (j, rs) ∷ m else (j, rs) ∷ rest)

unfoldable pub insert_each_role : Address → List Role → RoleMap → RoleMap
insert_each_role id [] roles = roles
insert_each_role id (r ∷ rs) roles = insert_each_role id rs (insert_role id r roles)

unfoldable pub insert_all_roles : RoleMap → RoleMap → RoleMap
insert_all_roles [] roles = roles
insert_all_roles ((id, rs) ∷ m) roles = insert_all_roles m (insert_each_role id rs roles)

module _ {S : Type 0} (p : Platform S) where
  unfoldable pub get_account_even_disabled : Address → Action S (Option Account)
  get_account_even_disabled id st =
      elim (p.get st.persistent_store (key_for_account p.identity id)) [
        | none ↦ (ok none, st)
        | some v ↦ elim (as_account v) [ ok a ↦ (ok (some a), st) | err e ↦ (err e, st) ]
      ]

  unfoldable pub get_account : Address → Action S (Option Account)
  get_account id = do found ← get_account_even_disabled id; pure (keep_enabled found)

  unfoldable pub commit_account : Address → Account → Action S ⊤
  commit_account id a = do
    apply p ((key_for_account p.identity id, put (account a)) ∷ [])
    maybe_commit p

  -- Setting the multisig feature of a new account, where it has that feature.
  unfoldable pub set_up_multisig : Account → Account
  set_up_multisig a = elim (p.get_multisig a.features) [
    | err e ↦ a
    | ok m ↦ record a {
      features = (p.insert_feature a.features (p.multisig_feature (new_multisig a.roles m))).1;
    }
  ]

  unfoldable pub log_if : Bool → EventInfo → Action S ⊤
  log_if true content = log_event p content
  log_if false content = pure tt

  -- `_add_account`
  unfoldable pub add_new_account : Account → Bool → Action S Address
  add_new_account a add_event = do
    id ← get_next_subresource p account_identity_root
    let new = set_up_multisig (p.add_role a id owner)
    log_if add_event (EventInfo.account_create id new.description new.roles new.features)
    commit_account id new
    pure id

  unfoldable pub add_account : Account → Action S Address
  add_account a = add_new_account a true

  abbrev unexpected_subresource : Option ℕ → Option ℕ → Action S ⊤
  unexpected_subresource (some expected) (some actual) =
      raise_if (if expected == actual then false else true)
        (unexpected_subresource_id actual expected)
  unexpected_subresource _ _ = pure tt

  abbrev unexpected_account : Option Address → Address → Action S ⊤
  unexpected_account none id = pure tt
  unexpected_account (some self_id) id =
      raise_if (if id == self_id then false else true) (unexpected_account_id id self_id)

  -- The loop of `with_account`.
  unfoldable pub add_accounts : List AccountMeta → Action S ⊤
  add_accounts [] = pure tt
  add_accounts (meta ∷ metas) =
      let rest = add_accounts metas in
      do
        id ←
            add_new_account
              (record {
                description = meta.description;
                roles = meta.roles;
                features = meta.features;
                disabled = none;
              })
              false
        unexpected_subresource meta.subresource_id (p.subresource_id id)
        unexpected_account meta.id id
        rest

  unfoldable pub identity_if_given : Option Address → Action S Address
  identity_if_given identity = do
    server ← get_identity p identity_root
    pure (unwrap_or identity server)

  unfoldable pub with_account : Option Address → Option (List AccountMeta) → Action S ⊤
  with_account identity accounts = do
    active ← gets (λ st. st.migrations.is_active token_migration)
    if active
        then (identity_if_given identity >>= λ id.
            apply p ((account_identity_root, put (address id)) ∷ []))
        else pure tt
    add_accounts (unwrap_or accounts [])

  unfoldable pub disable_account : Address → Action S ⊤
  disable_account id = do
    found ← get_account_even_disabled id
    a ← or_raise found (unknown_account id)
    raise_if (if is_enabled a.disabled then false else true) (unknown_account id)
    commit_account id (record a { disabled = some (left true) })
    log_event p (EventInfo.account_disable id)
    maybe_commit p

  unfoldable pub set_description : Account → SetDescriptionArgs → Action S ⊤
  set_description a args = do
    log_event p (EventInfo.account_set_description args.account args.description)
    commit_account args.account (record a { description = some args.description })

  -- The loops of `add_roles` and `remove_roles`.
  unfoldable pub add_each_role : Address → List Role → Account → Account
  add_each_role id [] a = a
  add_each_role id (r ∷ rs) a = add_each_role id rs (p.add_role a id r)

  unfoldable pub add_all_roles : RoleMap → Account → Account
  add_all_roles [] a = a
  add_all_roles ((id, rs) ∷ m) a = add_all_roles m (add_each_role id rs a)

  unfoldable pub remove_each_role : Address → List Role → Account → Account
  remove_each_role id [] a = a
  remove_each_role id (r ∷ rs) a = remove_each_role id rs (p.remove_role a id r)

  unfoldable pub remove_all_roles : RoleMap → Account → Account
  remove_all_roles [] a = a
  remove_all_roles ((id, rs) ∷ m) a = remove_all_roles m (remove_each_role id rs a)

  unfoldable pub add_roles : Account → RolesArgs → Action S ⊤
  add_roles a args = do
    log_event p (EventInfo.account_add_roles args.account args.roles)
    commit_account args.account (add_all_roles args.roles a)

  unfoldable pub remove_roles : Account → RolesArgs → Action S ⊤
  remove_roles a args = do
    raise_if (names_owner args.account args.roles) account_must_own_itself
    log_event p (EventInfo.account_remove_roles args.account args.roles)
    commit_account args.account (remove_all_roles args.roles a)

  -- The loop of `add_features` on the features.
  unfoldable pub insert_features : List Feature → FeatureSet → Result FeatureSet
  insert_features [] features = ok features
  insert_features (f ∷ fs) features =
      let result = p.insert_feature features f in
      let rest = insert_features fs result.1 in
      elim result.0 [ true ↦ err (unknown feature_already_part) | false ↦ rest ]

  unfoldable pub add_features : Account → AddFeaturesArgs → Action S ⊤
  add_features a args = do
    features ← lift (insert_features args.features a.features)
    let new = record a {
      features = features;
      roles = insert_all_roles (unwrap_or args.roles []) a.roles;
    }
    lift (validate_account p new)
    log_event p
        (EventInfo.account_add_features args.account (unwrap_or args.roles []) args.features)
    commit_account args.account new

  unfoldable pub verify_acl : Address → Address → List Role → ℕ → Action S ⊤
  verify_acl sender addr roles feature_id =
      if addr == sender
      then pure tt
      else (get_account addr >>= λ found. elim found [
        | none ↦ raise unauthorized
        | some a ↦ lift (verify_account_role p a sender feature_id roles)
      ])

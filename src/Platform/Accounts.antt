-- ===== src/Platform/Accounts.antt =====
-- The account methods of many-modules: roles, and the feature sets.
use many_framework.Prelude.{
  ⊤, ℕ, Bool, false, [], ◌∷◌, ◌≡◌, ◌&&◌, ◌||◌, not, List, ◌==◌, any, if◌then◌else◌,
}
use many_framework.Types.{
  Address, Role, role_eq, MultisigArg, Feature, FeatureSet, RoleMap, Account, CreateArgs, Result,
  ok, err, user_needs_role,
}

pub record AccountOps : Type 0 where
  pub has_role : Account → Address → Role → Bool
  pub needs_role : Account → Address → List Role → Result ⊤
  pub add_role : Account → Address → Role → Account
  pub remove_role : Account → Address → Role → Account
  -- `Account::create`
  pub create_account : Address → CreateArgs → Account
  -- `FeatureSet::has_id`, `get` of the feature with an id, `insert`
  pub has_id : FeatureSet → ℕ → Bool
  pub get_feature : FeatureSet → ℕ → Result Feature
  pub insert_feature : FeatureSet → Feature → Bool × FeatureSet
  -- `MultisigAccountFeature`: as a feature, and read from one
  pub get_multisig : FeatureSet → Result MultisigArg
  pub multisig_feature : MultisigArg → Feature
  pub multisig_id : ℕ
  pub account_ledger_id : ℕ
  pub token_account_ledger_id : ℕ
  pub account_kv_store_id : ℕ
  -- the roles that a feature brings
  pub feature_roles : ℕ → List Role

-- Whether a role map gives an address a role.
abbrev pub holds_role : RoleMap → Address → Role → Bool
holds_role [] i r = false
holds_role ((j, rs) ∷ m) i r = j == i && any (λ q. role_eq q r) rs || holds_role m i r

-- `has_role` reads what `add_role` and `remove_role` write, and these change the roles alone.
pub record IsAccountOps (o : AccountOps) : Type 0 where
  pub needs_role_lem :
      (a : Account) (id : Address) (rs : List Role)
      → o.needs_role a id rs ≡ (if any (o.has_role a id) rs then ok tt else err user_needs_role)
  pub has_role-add_role :
      (a : Account) (i j : Address) (r q : Role)
      → o.has_role (o.add_role a i r) j q ≡ (i == j && role_eq r q || o.has_role a j q)
  pub has_role-remove_role :
      (a : Account) (i j : Address) (r q : Role)
      → o.has_role (o.remove_role a i r) j q ≡ (not (i == j && role_eq r q) && o.has_role a j q)
  pub has_role_lem :
      (a : Account) (i : Address) (r : Role) → o.has_role a i r ≡ holds_role a.roles i r
  pub disabled-add_role :
      (a : Account) (i : Address) (r : Role) → (o.add_role a i r).disabled ≡ a.disabled
  pub disabled-remove_role :
      (a : Account) (i : Address) (r : Role) → (o.remove_role a i r).disabled ≡ a.disabled

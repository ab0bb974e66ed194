-- ===== src/Storage/Accounts/Validation.antt =====
-- The checks on an account: validate_account and verify_account_role of
-- src/many-ledger/src/module/account.rs.
use many_framework.Prelude.{⊤, ℕ, Bool, true, false, List, [], ◌∷◌, ◌++◌, any, all, if◌then◌else◌}
use many_framework.Types.{
  Address, Role, role_eq, owner, RoleMap, Account, Result, ok, err, attribute_not_found,
  unknown_role, unauthorized,
}
use many_framework.Platform.{Platform}

-- An absent feature is fine, any other error is not.
abbrev pub unless_absent {ℓ} : {A : Type ℓ} → Result A → Result ⊤
unless_absent (ok a) = ok tt
unless_absent (err attribute_not_found) = ok tt
unless_absent (err e) = err e

abbrev pub is_ok {ℓ} : {A : Type ℓ} → Result A → Bool
is_ok (ok a) = true
is_ok (err e) = false

abbrev pub then_check : Result ⊤ → Result ⊤ → Result ⊤
then_check (ok t) r = r
then_check (err e) r = err e

-- Every role that the account gives to somebody.
unfoldable pub roles_given : RoleMap → List Role
roles_given [] = []
roles_given ((id, rs) ∷ m) = rs ++ roles_given m

module _ {S : Type 0} (p : Platform S) where
  unfoldable pub get_roles_for_account : Account → List Role
  get_roles_for_account a =
      (if p.has_id a.features p.multisig_id then p.feature_roles p.multisig_id else [])
      ++ ((if p.has_id a.features p.account_ledger_id
            then p.feature_roles p.account_ledger_id
            else [])
          ++ (if p.has_id a.features p.token_account_ledger_id
              then p.feature_roles p.token_account_ledger_id
              else []))

  unfoldable pub validate_features_for_account : Account → Result ⊤
  validate_features_for_account a = then_check (unless_absent (p.get_multisig a.features)) (
      then_check (unless_absent (p.get_feature a.features p.account_ledger_id))
        (unless_absent (p.get_feature a.features p.token_account_ledger_id)))

  unfoldable pub allowed_roles : Account → List Role
  allowed_roles a =
      owner ∷ (if is_ok (p.get_multisig a.features) then p.feature_roles p.multisig_id else [])
      ++ ((if is_ok (p.get_feature a.features p.account_ledger_id)
            then p.feature_roles p.account_ledger_id
            else [])
          ++ (if is_ok (p.get_feature a.features p.token_account_ledger_id)
              then p.feature_roles p.token_account_ledger_id
              else []))

  unfoldable pub validate_roles_for_account : Account → Result ⊤
  validate_roles_for_account a =
      if all (λ r. any (role_eq r) (allowed_roles a)) (roles_given a.roles)
      then ok tt
      else err unknown_role

  unfoldable pub validate_account : Account → Result ⊤
  validate_account a = then_check (validate_features_for_account a) (validate_roles_for_account a)

  unfoldable pub verify_account_role : Account → Address → ℕ → List Role → Result ⊤
  verify_account_role a sender feature_id roles =
      if p.has_role a sender owner
      then ok tt
      else (if p.has_id a.features feature_id
          then p.needs_role a sender roles
          else err unauthorized)

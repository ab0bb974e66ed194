-- ===== src/Types/Accounts.antt =====
-- Accounts, roles and features, as many-modules declares them.
use many_framework.Prelude.{ℕ, ◌+◌, Bool, Option, List, Bytes, ◌==◌}
use many_framework.Types.Errors.{Address, Either}

pub data Role : Type 0 where
  owner can_ledger_transact can_multisig_submit can_multisig_approve : Role
  can_tokens_create can_tokens_update can_tokens_add_extended_info : Role
  can_tokens_remove_extended_info : Role
  can_kv_store_put can_kv_store_disable can_kv_store_transfer : Role
  other_role : ℕ → Role

abbrev role_code : Role → ℕ
role_code owner = 0
role_code can_ledger_transact = 1
role_code can_multisig_submit = 2
role_code can_multisig_approve = 3
role_code can_tokens_create = 4
role_code can_tokens_update = 5
role_code can_tokens_add_extended_info = 6
role_code can_tokens_remove_extended_info = 7
role_code can_kv_store_put = 8
role_code can_kv_store_disable = 9
role_code can_kv_store_transfer = 10
role_code (other_role n) = 11 + n

abbrev pub role_eq : Role → Role → Bool
role_eq r q = role_code r == role_code q

-- The argument of the multisig feature.
pub record MultisigArg : Type 0 where
  pub threshold : Option ℕ
  pub timeout_in_secs : Option ℕ
  pub execute_automatically : Option Bool

pub record Feature : Type 0 where
  pub id : ℕ
  pub argument : Option MultisigArg

abbrev pub FeatureSet : Type 0
FeatureSet = List Feature

-- `BTreeMap<Address, BTreeSet<Role>>`, by ascending address.
abbrev pub RoleMap : Type 0
RoleMap = List (Address × List Role)

pub record Account : Type 0 where
  pub description : Option Bytes
  pub roles : RoleMap
  pub features : FeatureSet
  pub disabled : Option (Either Bool Bytes)

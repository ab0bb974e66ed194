-- ===== src/Types/Transactions.antt =====
-- The transactions that a multisig account can hold, and a held one with its votes.
use many_framework.Prelude.{ℕ, Bool, Option, List, Bytes}
use many_framework.Types.Errors.{Address, Symbol, Timestamp}
use many_framework.Types.Accounts.{RoleMap, FeatureSet}
use many_framework.Types.Tokens.{TokenAmount, Memo}

pub record SendArgs : Type 0 where
  pub from : Option Address
  pub to : Address
  pub symbol : Symbol
  pub amount : TokenAmount
  pub memo : Option Memo

pub record CreateArgs : Type 0 where
  pub description : Option Bytes
  pub roles : Option RoleMap
  pub features : FeatureSet

pub record SetDescriptionArgs : Type 0 where
  pub account : Address
  pub description : Bytes

pub record RolesArgs : Type 0 where
  pub account : Address
  pub roles : RoleMap

pub record AddFeaturesArgs : Type 0 where
  pub account : Address
  pub roles : Option RoleMap
  pub features : FeatureSet

pub record SetDefaultsArgs : Type 0 where
  pub account : Address
  pub threshold : Option ℕ
  pub timeout_in_secs : Option ℕ
  pub execute_automatically : Option Bool

-- What a submission carries beside the transaction.
pub record SubmitOptions : Type 0 where
  pub account : Address
  pub legacy_memo : Option Bytes
  pub threshold : Option ℕ
  pub timeout_in_secs : Option ℕ
  pub execute_automatically : Option Bool
  pub legacy_data : Option Bytes
  pub memo : Option Memo

-- `AccountMultisigTransaction`; `unsupported` stands for the variants that are not executed.
pub data Transaction : Type 0 where
  send : SendArgs → Transaction
  account_create : CreateArgs → Transaction
  account_disable : Address → Transaction
  account_set_description : SetDescriptionArgs → Transaction
  account_add_roles account_remove_roles : RolesArgs → Transaction
  account_add_features : AddFeaturesArgs → Transaction
  multisig_submit : SubmitOptions → Transaction → Transaction
  multisig_set_defaults : SetDefaultsArgs → Transaction
  multisig_approve multisig_revoke multisig_execute multisig_withdraw : Bytes → Transaction
  unsupported : ℕ → Transaction

-- What an executed transaction answers.
pub data Answer : Type 0 where
  empty_return : Answer
  create_return : Address → Answer
  submit_return : Bytes → Answer

pub data MultisigTransactionState : Type 0 where
  pending executed_automatically executed_manually withdrawn expired : MultisigTransactionState

-- `BTreeMap<Address, ApproverInfo>`
abbrev pub Approvers : Type 0
Approvers = List (Address × Bool)

pub record InfoReturn : Type 0 where
  pub legacy_memo : Option Bytes
  pub memo : Option Memo
  pub transaction : Transaction
  pub submitter : Address
  pub approvers : Approvers
  pub threshold : ℕ
  pub execute_automatically : Bool
  pub timeout : Timestamp
  pub legacy_data : Option Bytes
  pub state : MultisigTransactionState

-- `MultisigTransactionStorage`
pub record MultisigTransactionStorage : Type 0 where
  pub account : Address
  pub info : InfoReturn
  pub creation : Timestamp
  pub disabled : Bool

-- ===== src/Types/Events.antt =====
-- The event log's entries.
use many_framework.Prelude.{Option, List, Bytes}
use many_framework.Types.Errors.{Address, Symbol, Timestamp, Either, Result}
use many_framework.Types.Accounts.{RoleMap, FeatureSet}
use many_framework.Types.Tokens.{
  TokenAmount, Memo, TokenInfoSummary, TokenExtendedInfo, Distribution, ExtendedInfoKey,
  TokenUpdateArgs,
}
use many_framework.Types.Transactions.{SetDefaultsArgs, InfoReturn}

-- An event's id is a byte string that counts as a big-endian number.
abbrev pub EventId : Type 0
EventId = Bytes

-- The answer to an executed transaction: `ResponseMessage`, as far as the ledger sets it.
pub record ResponseMessage : Type 0 where
  pub from : Address
  pub answer : Result Bytes
  pub timestamp : Option Timestamp

pub data EventInfo : Type 0 where
  send : Address → Address → Symbol → TokenAmount → Option Memo → EventInfo
  account_create : Address → Option Bytes → RoleMap → FeatureSet → EventInfo
  account_disable : Address → EventInfo
  account_set_description : Address → Bytes → EventInfo
  account_add_roles account_remove_roles : Address → RoleMap → EventInfo
  account_add_features : Address → RoleMap → FeatureSet → EventInfo
  multisig_submit : Address → InfoReturn → EventId → EventInfo
  multisig_expired : Address → Bytes → EventInfo
  multisig_set_defaults : Address → SetDefaultsArgs → EventInfo
  multisig_approve multisig_revoke multisig_withdraw : Address → Bytes → Address → EventInfo
  multisig_execute : Address → Bytes → Option Address → ResponseMessage → EventInfo
  token_create :
      TokenInfoSummary
      → Symbol
      → Option (Either Address Unit)
      → Option Distribution
      → Option TokenAmount
      → Option TokenExtendedInfo
      → Option Memo
      → EventInfo
  token_update : TokenUpdateArgs → EventInfo
  token_add_extended_info token_remove_extended_info :
      Symbol → List ExtendedInfoKey → Option Memo → EventInfo
  kv_store_put : Bytes → Bytes → Address → EventInfo
  kv_store_disable : Bytes → Option Bytes → EventInfo
  kv_store_transfer : Bytes → Address → Address → EventInfo
  token_mint token_burn : Symbol → Distribution → Option Memo → EventInfo

pub record EventLog : Type 0 where
  pub id : EventId
  pub time : Timestamp
  pub content : EventInfo

-- ===== src/Types/Values.antt =====
-- What the store holds under a key. Each constructor stands for the bytes that its contents are
-- encoded to: by minicbor, or as the big-endian bytes of a number.
use many_framework.Prelude.{ℕ, Bool, Option, List, Bytes}
use many_framework.Types.Errors.{Address, Symbol, Either}
use many_framework.Types.Accounts.{Account}
use many_framework.Types.Tokens.{TokenAmount, TokenInfo, TokenExtendedInfo}
use many_framework.Types.Transactions.{MultisigTransactionStorage}
use many_framework.Types.Events.{EventLog}

-- `BTreeMap<Symbol, String>`: the tickers.
abbrev pub Tickers : Type 0
Tickers = List (Symbol × Bytes)

abbrev pub DataIndex : Type 0
DataIndex = List ℕ

pub data DataValue : Type 0 where
  counter : ℕ → DataValue
  other_value : DataValue

abbrev pub Attributes : Type 0
Attributes = List (DataIndex × DataValue)

-- `DataInfo`: the name of a data attribute; each is a counter.
pub record DataInfo : Type 0 where
  pub shortname : Bytes

abbrev pub DataInfos : Type 0
DataInfos = List (DataIndex × DataInfo)

-- `CredentialStorage`
pub record CredentialStorage : Type 0 where
  pub cred_id : Bytes
  pub public_key : Bytes

-- `KvStoreMetadata`: the owner of a key, and whether it is disabled, or why.
pub record KvStoreMetadata : Type 0 where
  pub owner : Address
  pub disabled : Option (Either Bool Bytes)

pub data Value : Type 0 where
  amount : TokenAmount → Value
  account : Account → Value
  token_info : TokenInfo → Value
  ext_info : TokenExtendedInfo → Value
  tickers : Tickers → Value
  multisig : MultisigTransactionStorage → Value
  event : EventLog → Value
  attributes : Attributes → Value
  data_infos : DataInfos → Value
  credential : CredentialStorage → Value
  be_u64 be_u32 : ℕ → Value
  address : Address → Value
  metadata : KvStoreMetadata → Value
  raw event_id : Bytes → Value

-- An entry of a batch.
pub data Op : Type 0 where
  put : Value → Op
  delete : Op

abbrev pub Batch : Type 0
Batch = List (Bytes × Op)

-- ===== src/Abci/Blockchain/Shapes.antt =====
-- What Tendermint's client gives and the blockchain module answers: the types that
-- src/many-abci/src/module.rs uses, of tendermint, tendermint-rpc and many-types.
use many_framework.Prelude.{ℕ, Option, List, Bytes}
use many_framework.Types.{Timestamp}
use many_framework.Storage.Iterator.{SortOrder, CborRange}

-- A condition on `block.height`; a query is a conjunction.
pub data Condition : Type 0 where
  gte gt lte lt : ℕ → Condition

pub data Order : Type 0 where
  tm_ascending tm_descending : Order

-- `tendermint::Block`. The time is in seconds, where it is a timestamp.
pub record TmBlock : Type 0 where
  pub height : ℕ
  pub hash : Bytes
  pub last_block_hash : Option Bytes
  pub app_hash : Bytes
  pub time : Option Timestamp
  pub txs : List Bytes

pub record BlockIdentifier : Type 0 where
  pub hash : Bytes
  pub height : ℕ

-- `Block` of many-types; a transaction is given by its hash.
pub record Block : Type 0 where
  pub id : BlockIdentifier
  pub parent : BlockIdentifier
  pub app_hash : Option Bytes
  pub timestamp : Timestamp
  pub txs_count : ℕ
  pub txs : List Bytes

-- A transaction, its hash and the data of its result.
pub record TmTx : Type 0 where
  pub hash : Bytes
  pub tx : Bytes
  pub result : Bytes

pub data RangeBlockQuery : Type 0 where
  by_height : CborRange ℕ → RangeBlockQuery
  by_time : CborRange Timestamp → RangeBlockQuery

pub data SingleBlockQuery : Type 0 where
  with_hash : Bytes → SingleBlockQuery
  with_height : ℕ → SingleBlockQuery

pub record ListArgs : Type 0 where
  pub count : Option ℕ
  pub order : Option SortOrder
  pub filter : Option RangeBlockQuery

pub record ListReturns : Type 0 where
  pub height : ℕ
  pub blocks : List Block

pub record InfoReturns : Type 0 where
  pub latest_block : BlockIdentifier
  pub app_hash : Option Bytes

pub record ChainClient (C : Type 0) : Type 0 where
  pub tx : Bytes → C → Option TmTx
  pub block : ℕ → C → Option TmBlock
  pub block_by_hash : Bytes → C → Option (Option TmBlock)
  pub block_search : List Condition → ℕ → ℕ → Order → C → Option (List TmBlock)
  -- The latest block and its application hash.
  pub status : C → Option (BlockIdentifier × Bytes)
  pub sha256 : Bytes → Bytes
  pub genesis : BlockIdentifier

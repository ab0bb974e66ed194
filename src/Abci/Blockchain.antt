-- ===== src/Abci/Blockchain.antt =====
-- The blockchain and async modules of the bridge: src/many-abci/src/module.rs. They answer from
-- Tendermint's client, a parameter; a failed call of it is `none`.
mod Shapes
pub mod Laws
pub use Shapes.*
use many_framework.Prelude.{
  ⊤, ℕ, ◌+◌, ◌-◌, ◌/◌, ◌%◌, ◌^◌, ◌==◌, ltb, leb, Bool, Option, none, some, List, [], ◌∷◌, Bytes,
  length, map, if◌then◌else◌,
}
use Prim.Native.Nat.{min}
use many_framework.Types.{
  Timestamp, Result, ok, err, unknown, unimplemented, invalid_hash_length, invalid_async_token,
  invalid_transaction_hash, unable_to_cast, search_failed, status_failed, transport_error,
  unknown_block, deserialization_error, serialization_error, panic,
}
use many_framework.Storage.Iterator.{
  SortOrder, indeterminate, ascending, descending, Bound, included, excluded, unbounded, CborRange,
}
use many_framework.Abci.Messages.{Response, Codec}

abbrev pub maximum_block_count : ℕ
maximum_block_count = 100

abbrev pub u8_max : ℕ
u8_max = 255

unfoldable pub tm_order : SortOrder → Order
tm_order ascending = tm_ascending
tm_order descending = tm_descending
tm_order indeterminate = tm_ascending

abbrev pub start_conditions : Bound ℕ → List Condition
start_conditions (included x) = gte x ∷ []
start_conditions (excluded x) = gt x ∷ []
start_conditions unbounded = []

abbrev pub end_conditions : Bound ℕ → List Condition → List Condition
end_conditions (included x) query = lte x ∷ query
end_conditions (excluded x) query = lt x ∷ query
end_conditions unbounded query = query

-- The default where the query is empty.
abbrev pub or_default : List Condition → List Condition
or_default [] = gte 0 ∷ []
or_default (x ∷ query) = x ∷ query

unfoldable pub tm_query : RangeBlockQuery → Result (List Condition)
tm_query (by_height range) =
    ok (or_default (end_conditions range.end_bound (start_conditions range.start_bound)))
tm_query (by_time range) = err (unknown unimplemented)

abbrev pub block_count : Option ℕ → ℕ
block_count none = maximum_block_count
block_count (some c) = min c maximum_block_count

-- The number of pages and of blocks on each.
unfoldable pub pages_and_count : Option ℕ → Result (ℕ × ℕ)
pages_and_count count =
    let n = block_count count in
    let pages = (n + u8_max - 1) / u8_max in
    if ltb u8_max n
    then (if ltb pages (2 ^ 32) then ok (pages, u8_max) else err (unknown unable_to_cast))
    else ok (1, n)

abbrev is_hash : Bytes → Bool
is_hash hash = length hash == 32

abbrev pub filter_query : Option RangeBlockQuery → Result (List Condition)
filter_query none = ok (gte 0 ∷ [])
filter_query (some filter) = tm_query filter

abbrev pub order_of : Option SortOrder → Order
order_of none = tm_ascending
order_of (some order) = tm_order order

module _ {C : Type 0} (client : ChainClient C) where
  abbrev parent_of : TmBlock → Result BlockIdentifier
  parent_of block = if leb block.height 1 then ok client.genesis else (elim block.last_block_hash [
    | none ↦ err panic
    | some hash ↦ ok (record { hash = hash; height = block.height - 1 })
  ])

  unfoldable pub many_block : TmBlock → Result Block
  many_block block = elim (parent_of block) [
    | err e ↦ err e
    | ok parent ↦ elim block.time [
      | none ↦ err panic
      | some time ↦ ok (record {
        id = record { hash = block.hash; height = block.height };
        parent = parent;
        app_hash = some block.app_hash;
        timestamp = time;
        txs_count = length block.txs;
        txs = map client.sha256 block.txs;
      })
    ]
  ]

  unfoldable pub many_blocks : List TmBlock → Result (List Block)
  many_blocks [] = ok []
  many_blocks (b ∷ blocks) =
      let rest = many_blocks blocks in
      elim (many_block b) [
        | err e ↦ err e
        | ok first ↦ elim rest [ err e ↦ err e | ok others ↦ ok (first ∷ others) ]
      ]

  unfoldable pub info : C → Result InfoReturns
  info c = elim (client.status c) [
    | none ↦ err transport_error
    | some (latest, hash) ↦ ok (record { latest_block = latest; app_hash = some hash })
  ]

  abbrev find_tx : Bytes → C → Result TmTx
  find_tx hash c =
      if is_hash hash
      then (elim (client.tx hash c) [ none ↦ err transport_error | some tx ↦ ok tx ])
      else err (unknown invalid_transaction_hash)

  -- The identifier of the transaction.
  unfoldable pub transaction : Bytes → C → Result Bytes
  transaction hash c = elim (find_tx hash c) [ err e ↦ err e | ok tx ↦ ok tx.hash ]

  unfoldable pub request : Bytes → C → Result Bytes
  request hash c = elim (find_tx hash c) [ err e ↦ err e | ok tx ↦ ok tx.tx ]

  abbrev find_block : SingleBlockQuery → C → Result (Option TmBlock)
  find_block (with_hash hash) c =
      if is_hash hash
      then (elim (client.block_by_hash hash c) [
        | none ↦ err transport_error
        | some found ↦ ok found
      ])
      else err (unknown invalid_hash_length)
  find_block (with_height height) c = elim (client.block (height % 2 ^ 32) c) [
    | none ↦ err transport_error
    | some found ↦ ok (some found)
  ]

  unfoldable pub block : SingleBlockQuery → C → Result Block
  block query c = elim (find_block query c) [
    | err e ↦ err e
    | ok none ↦ err unknown_block
    | ok (some found) ↦ many_block found
  ]

  abbrev pub search_answer :
      Option (List TmBlock) → Option (BlockIdentifier × Bytes) → Result ListReturns
  search_answer none status = err (unknown search_failed)
  search_answer (some found) status = elim (many_blocks found) [
    | err e ↦ err e
    | ok blocks ↦ elim status [
      | none ↦ err (unknown status_failed)
      | some (latest, hash) ↦ ok (record { height = latest.height; blocks = blocks })
    ]
  ]

  unfoldable pub list : ListArgs → C → Result ListReturns
  list args c = elim (pages_and_count args.count) [
    | err e ↦ err e
    | ok (pages, count) ↦ elim (filter_query args.filter) [
      | err e ↦ err e
      | ok query ↦
          search_answer (client.block_search query pages count (order_of args.order) c)
            (client.status c)
    ]
  ]

module _ {C Envelope : Type 0} (client : ChainClient C) (codec : Codec Envelope)
    (encode_response : Response → Option Envelope) where
  pub data StatusReturn : Type 0 where
    done : Envelope → StatusReturn
    unknown_status : StatusReturn

  abbrev signed_answer : Bytes → Result Envelope
  signed_answer bytes = elim (codec.response_from_bytes bytes) [
    | none ↦ err transport_error
    | some response ↦ elim (encode_response response) [
      | none ↦ err transport_error
      | some envelope ↦ ok envelope
    ]
  ]

  -- `status` of the async module
  unfoldable pub async_status : Bytes → C → Result StatusReturn
  async_status token c =
      if is_hash token
      then (elim (client.tx token c) [
        | none ↦ ok unknown_status
        | some tx ↦ elim (signed_answer tx.result) [
          | err e ↦ err e
          | ok envelope ↦ ok (done envelope)
        ]
      ])
      else err (unknown invalid_async_token)

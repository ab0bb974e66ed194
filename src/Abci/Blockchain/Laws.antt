-- ===== src/Abci/Blockchain/Laws.antt =====
-- Listing blocks: the query given to Tendermint describes the range, and one page is asked for.
use many_framework.Prelude.{
  ◌≡◌, ◌≢◌, ℕ, ◌≤◌, Bool, true, false, ◌&&◌, ltb, leb, Option, some, List, [], ◌∷◌, take,
  if◌then◌else◌,
}
use many_framework.Storage.Iterator.{CborRange, everything}
use many_framework.Abci.Blockchain.{
  Condition, gte, gt, lte, lt, Order, tm_ascending, tm_descending, TmBlock, ChainClient,
  RangeBlockQuery, by_height, by_time, maximum_block_count,
}
use mathlib.Core.List.{reverse}

-- Whether a height meets a condition, and all those of a query.
abbrev pub meets : Condition → ℕ → Bool
meets (gte x) h = leb x h
meets (gt x) h = ltb x h
meets (lte x) h = leb h x
meets (lt x) h = ltb h x

abbrev pub meets_all : List Condition → ℕ → Bool
meets_all [] h = true
meets_all (x ∷ query) h = meets x h && meets_all query h

abbrev pub select : (TmBlock → Bool) → List TmBlock → List TmBlock
select f [] = []
select f (b ∷ blocks) = if f b then b ∷ select f blocks else select f blocks

abbrev pub in_order : Order → List TmBlock → List TmBlock
in_order tm_ascending blocks = blocks
in_order tm_descending blocks = reverse blocks

-- The range that a filter asks for.
abbrev pub range_of : Option RangeBlockQuery → CborRange ℕ
range_of (some (by_height range)) = range
range_of _ = everything

abbrev pub is_by_height : Option RangeBlockQuery → Bool
is_by_height (some (by_time range)) = false
is_by_height _ = true

module _ {C : Type 0} (client : ChainClient C) where
  -- Tendermint knows the blocks of `chain`, by height: a search answers the first page of those that
  -- meet the query, in the order asked for, where a page has 1 to 100 blocks.
  abbrev pub Searches : List TmBlock → C → Type 0
  Searches chain c =
      (query : List Condition) (n : ℕ) (order : Order)
      → n ≢ 0
      → n ≤ maximum_block_count
      → client.block_search query 1 n order c
        ≡ some (take n (in_order order (select (λ b. meets_all query b.height) chain)))

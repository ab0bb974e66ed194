-- ===== src/Storage/Iterator.antt =====
-- The iterators of the store: src/many-ledger/src/storage/iterator.rs, and that of
-- src/many-kvstore/src/storage/event.rs, which reads the same keys.
pub mod Laws
use many_framework.Prelude.{ℕ, Bool, true, false, ◌&&◌, not, ltb, leb, List, Bytes, codes}
use mathlib.Core.List.{reverse}
use many_framework.Types.{EventId, Value}
use many_framework.Platform.{Platform}
use many_framework.Storage.Keys.{
  events_root, multisig_transactions_root, symbols_root_dash, key_for_event,
}

-- `SortOrder`, `Bound` and `CborRange` of many-types.
pub data SortOrder : Type 0 where
  indeterminate ascending descending : SortOrder

pub data Bound (A : Type 0) : Type 0 where
  included excluded : A → Bound A
  unbounded : Bound A

pub record CborRange (A : Type 0) : Type 0 where
  pub start_bound : Bound A
  pub end_bound : Bound A

abbrev pub everything : {A : Type 0} → CborRange A
everything = record { start_bound = unbounded; end_bound = unbounded }

-- `RangeBounds::contains` on numbers.
abbrev pub within_start : Bound ℕ → ℕ → Bool
within_start (included a) n = leb a n
within_start (excluded a) n = ltb a n
within_start unbounded n = true

abbrev pub within_end : Bound ℕ → ℕ → Bool
within_end (included a) n = leb n a
within_end (excluded a) n = ltb n a
within_end unbounded n = true

abbrev pub contains_number : CborRange ℕ → ℕ → Bool
contains_number r n = within_start r.start_bound n && within_end r.end_bound n

-- `EVENTS_ROOT` with its last byte incremented.
abbrev pub events_end : Bytes
events_end = codes "/events0"

abbrev pub ordered {ℓ} : {A : Type ℓ} → SortOrder → List A → List A
ordered descending xs = reverse xs
ordered indeterminate xs = xs
ordered ascending xs = xs

module _ {S : Type 0} (p : Platform S) where
  abbrev pub lower_bound : Bound EventId → Bytes
  lower_bound (included x) = key_for_event x
  lower_bound (excluded x) = key_for_event (p.add_id x 1)
  lower_bound unbounded = events_root

  abbrev pub upper_bound : Bound EventId → Bytes
  upper_bound (included x) = key_for_event (p.add_id x 1)
  upper_bound (excluded x) = key_for_event x
  upper_bound unbounded = events_end

  unfoldable pub all_multisig : SortOrder → S → List (Bytes × Value)
  all_multisig order s = ordered order (p.iter_prefix s multisig_transactions_root)

  unfoldable pub all_symbols : SortOrder → S → List (Bytes × Value)
  all_symbols order s = ordered order (p.iter_prefix s symbols_root_dash)

  unfoldable pub events_scoped_by_id : CborRange EventId → SortOrder → S → List (Bytes × Value)
  events_scoped_by_id range order s =
      ordered order (p.iter_range s (lower_bound range.start_bound) (upper_bound range.end_bound))

  unfoldable pub all_events : S → List (Bytes × Value)
  all_events s = events_scoped_by_id everything indeterminate s

  -- `KvStoreIterator::scoped_by_id`
  unfoldable pub scoped_by_id : CborRange EventId → SortOrder → S → List (Bytes × Value)
  scoped_by_id range order s =
      ordered order (p.iter_range s (lower_bound range.start_bound) (upper_bound range.end_bound))

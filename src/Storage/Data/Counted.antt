-- ===== src/Storage/Data/Counted.antt =====
-- The account counters count what the store holds: the entries under the balance keys, and those
-- of them that are not zero.
pub mod Transfer
use many_framework.Prelude.{
  ⊤, ℕ, ◌+◌, ◌-◌, ◌%◌, ◌≤◌, ◌<◌, ◌≡◌, ◌≢◌, refl, true, false, Bool, ◌&&◌, ◌||◌, ◌==◌, ==_iff, not,
  is_some, Option, none, some, List, [], ◌∷◌, Bytes, bytes_eq, bytes_eq_iff, length, any,
  if◌then◌else◌, arith, Bool-cases, inl, inr, ltb,
}
use many_framework.Types.{
  Address, Symbol, TokenAmount, Memo, Value, Attributes, attributes, counter, other_value,
  DataIndex, DataValue, EventInfo, put, Batch, Result, ok, err,
}
use many_framework.Platform.{Platform, IsPlatform, batch_get}
use many_framework.Storage.State.{LedgerStorage}
use many_framework.Storage.Keys.{key_for_account_balance, data_attributes_key}
use many_framework.Storage.Keys.Distinct.{key_for_account_balance_eq}
use many_framework.Storage.Basic.{u64_mod}
use many_framework.Storage.Basic.Laws.{written, value, value-written, value-committed}
use many_framework.Storage.Event.Laws.{logged, value-logged_other}
use many_framework.Storage.Balances.{get_balance, amount_or_zero}
use many_framework.Storage.Data.{
  data_attributes, modify_counter, increment, decrement, modify_if, count_transfer,
  account_total_count_index, non_zero_account_total_count_index,
}
use many_framework.Storage.Data.Laws.{counted}
use many_framework.Storage.Send.{send, ordered_batch}
use many_framework.Storage.Send.Laws.{
  sent, send_batch, send_batch-sorted, value-sent, batch_get-ordered_batch,
}
use many_framework.Storage.Send.Conservation.{send_outcome}

-- The value of a counter.
abbrev pub counter_of : DataIndex → Attributes → Option ℕ
counter_of i [] = none
counter_of i ((j, counter n) ∷ m) = if bytes_eq j i then some n else counter_of i m
counter_of i ((j, other_value) ∷ m) = if bytes_eq j i then none else counter_of i m

abbrev applied : (ℕ → ℕ) → Option ℕ → Option ℕ
applied f none = none
applied f (some n) = some (f n)

counter_of-modify_counter :
    (i k : DataIndex) (f : ℕ → ℕ) (m : Attributes)
    → counter_of k (modify_counter i f m)
      ≡ (if bytes_eq i k then applied f (counter_of k m) else counter_of k m)
unfolding modify_counter
counter_of-modify_counter i k f [] = ground arith
counter_of-modify_counter i k f ((j, counter n) ∷ m) =
    ground (
      arith,
      counter_of-modify_counter i k f m,
      bytes_eq_iff j i,
      bytes_eq_iff j k,
      bytes_eq_iff i k,
    )
counter_of-modify_counter i k f ((j, other_value) ∷ m) =
    ground (
      arith,
      counter_of-modify_counter i k f m,
      bytes_eq_iff j i,
      bytes_eq_iff j k,
      bytes_eq_iff i k,
    )

pub counter_of-modify_if :
    (b : Bool) (i k : DataIndex) (f : ℕ → ℕ) (m : Attributes)
    → counter_of k (modify_if b i f m)
      ≡ (if b && bytes_eq i k then applied f (counter_of k m) else counter_of k m)
counter_of-modify_if b i k f m = ground (arith, counter_of-modify_counter i k f m)

pub unless :
    {A : Type 0} (P : A → Type 0) (b : Bool) {x y : A}
    → P x
    → (b ≡ false → P y)
    → P (if b then x else y)
unless P true h h' = h
unless P false h h' = h' refl

abbrev pub Holdings : Type 0
Holdings = List (Address × Symbol)

abbrev same_holding : Address → Symbol → Address × Symbol → Bool
same_holding id s e = e.0 == id && e.1 == s

abbrev pub has_holding : Holdings → Address → Symbol → Bool
has_holding entries id s = any (same_holding id s) entries

-- No pair of an address and a symbol is listed twice.
abbrev pub AreDistinct : Holdings → Type 0
AreDistinct [] = Unit {0}
AreDistinct ((id, s) ∷ entries) = (has_holding entries id s ≡ false) × AreDistinct entries

abbrev pub count_over : (Address → Symbol → Bool) → Holdings → ℕ
count_over f [] = 0
count_over f ((id, s) ∷ entries) = (if f id s then 1 else 0) + count_over f entries

pub count_over-le-length :
    (f : Address → Symbol → Bool) (entries : Holdings) → count_over f entries ≤ length entries
count_over-le-length f [] = omega arith
count_over-le-length f ((id, s) ∷ entries) = ground (arith, count_over-le-length f entries)

module _ (f g : Address → Symbol → Bool) (from to : Address) (symbol : Symbol) (b : Bool)
    (ne : from ≢ to) (source : f from symbol ≡ true)
    (g_lem : (id : Address) (s : Symbol)
      → g id s ≡ (
          if id == from && s == symbol
          then b
          else (if id == to && s == symbol then true else f id s))) where
  -- What a count becomes when the destination is set, and the source to a given bit.
  pub count-moved :
      (entries : Holdings)
      → AreDistinct entries
      → count_over g entries + (if has_holding entries from symbol && not b then 1 else 0)
        ≡ count_over f entries
          + (if has_holding entries to symbol && not (f to symbol) then 1 else 0)
  count-moved [] d = refl
  count-moved ((id, s) ∷ entries) d = ground (
    arith,
    count-moved entries d.1,
    g_lem id s,
    ==_iff id from,
    ==_iff id to,
    ==_iff s symbol,
    ==_iff from to,
  )

module _ {S : Type 0} (p : Platform S) where
  abbrev pub is_held : LedgerStorage S → Address → Symbol → Bool
  is_held st id s = is_some (value p st (key_for_account_balance p.identity id s))

  abbrev pub is_non_zero : LedgerStorage S → Address → Symbol → Bool
  is_non_zero st id s =
      not (amount_or_zero (value p st (key_for_account_balance p.identity id s)) == 0)

  -- The counters can be read, and are the numbers of the entries that the store holds.
  pub record IsCounted (entries : Holdings) (st : LedgerStorage S) : Type 0 where
    pub counters : Attributes
    pub found : data_attributes p st ≡ (ok (some counters), st)
    pub total :
        counter_of account_total_count_index counters ≡ some (count_over (is_held st) entries)
    pub non_zero :
        counter_of non_zero_account_total_count_index counters
        ≡ some (count_over (is_non_zero st) entries)

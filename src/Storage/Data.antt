-- ===== src/Storage/Data.antt =====
-- The account counters: src/many-ledger/src/storage/data.rs.
pub mod Laws
pub mod Counted
use many_framework.Prelude.{
  ⊤, ℕ, ◌+◌, ◌-◌, ◌%◌, Bool, true, false, Option, none, some, [], ◌∷◌, ◌||◌, ◌==◌, not, is_some,
  bytes_eq, if◌then◌else◌,
}
use many_framework.Types.{
  Address, Symbol, TokenAmount, Value, put, Attributes, attributes, DataIndex, DataValue, counter,
  other_value, ok, err, panic,
}
use many_framework.Platform.{Platform}
use many_framework.Storage.State.{LedgerStorage, Action, pure, raise, gets, ◌>>=◌}
use many_framework.Storage.Keys.{key_for_account_balance, data_attributes_key}
use many_framework.Storage.Basic.{u64_mod, get, apply}
use many_framework.Storage.Balances.{get_balance}

abbrev pub account_total_count_index : DataIndex
account_total_count_index = 0 ∷ 2 ∷ 0 ∷ []

abbrev pub non_zero_account_total_count_index : DataIndex
non_zero_account_total_count_index = 0 ∷ 2 ∷ 1 ∷ []

abbrev on_counter : (ℕ → ℕ) → DataValue → DataValue
on_counter f (counter n) = counter (f n)
on_counter f other_value = other_value

-- `entry(index).and_modify` on a counter.
unfoldable pub modify_counter : DataIndex → (ℕ → ℕ) → Attributes → Attributes
modify_counter index f [] = []
modify_counter index f ((j, v) ∷ m) =
    let rest = modify_counter index f m in
    if bytes_eq j index then (j, on_counter f v) ∷ m else (j, v) ∷ rest

-- `+= 1` and `-= 1` on a `u64`.
abbrev pub increment : ℕ → ℕ
increment n = (n + 1) % u64_mod

abbrev pub decrement : ℕ → ℕ
decrement n = (n + u64_mod - 1) % u64_mod

abbrev pub modify_if : Bool → DataIndex → (ℕ → ℕ) → Attributes → Attributes
modify_if b index f m = if b then modify_counter index f m else m

module _ {S : Type 0} (p : Platform S) where
  unfoldable pub data_attributes : Action S (Option Attributes)
  data_attributes st = elim (p.get st.persistent_store data_attributes_key) [
    | none ↦ (ok none, st)
    | some (attributes m) ↦ (ok (some m), st)
    | some _ ↦ (err panic, st)
  ]

  -- The counters after a transfer, from those before.
  unfoldable pub count_transfer :
      Address → Address → TokenAmount → Symbol → LedgerStorage S → Attributes → Attributes
  count_transfer from to amount symbol st m =
      let destination_is_empty =
        not (is_some (p.get st.persistent_store (key_for_account_balance p.identity to symbol))) in
      let destination_is_zero = get_balance p to symbol st == 0 in
      let created = modify_if destination_is_empty account_total_count_index increment m in
      let filled =
        modify_if (destination_is_zero || destination_is_empty) non_zero_account_total_count_index
          increment created in
      modify_if (get_balance p from symbol st == amount) non_zero_account_total_count_index
        decrement filled

  unfoldable pub update_account_count : Address → Address → TokenAmount → Symbol → Action S ⊤
  update_account_count from to amount symbol = data_attributes >>= λ found. elim found [
    | none ↦ pure tt
    | some m ↦ gets (λ st. count_transfer from to amount symbol st m) >>= λ m'.
        apply p ((data_attributes_key, put (attributes m')) ∷ [])
  ]

-- ===== src/Storage/Balances.antt =====
-- Balances: src/many-ledger/src/storage/ledger.rs and get_balance of storage/ledger_commands.rs.
-- A `BTreeMap` that is only read is a list of its entries.
pub mod Laws
use many_framework.Prelude.{
  ⊤, ℕ, Bool, true, false, Option, none, some, List, [], ◌∷◌, ◌++◌, ◌&&◌, ◌==◌, not, is_some,
  if◌then◌else◌,
}
use many_framework.Types.{
  Address, Symbol, TokenAmount, Value, amount, put, Batch, Tickers, Result, ok, err, unknown,
  unknown_symbol_for_identity,
}
use many_framework.Platform.{Platform}
use many_framework.Storage.State.{LedgerStorage, Action, pure, raise, lift, ◌>>=◌, ◌>>◌}
use many_framework.Storage.Keys.{key_for_account_balance}
use many_framework.Storage.Basic.{contains, get, apply, get_symbols}

-- `TokenAmount::from`. Nothing but an amount is stored under a balance key.
abbrev pub as_amount : Value → TokenAmount
as_amount (amount n) = n
as_amount _ = 0

-- `BTreeMap::get`
abbrev pub map_get {ℓ} : {A : Type ℓ} → ℕ → List (ℕ × A) → Option A
map_get k [] = none
map_get k ((j, v) ∷ m) = if j == k then some v else map_get k m

abbrev pub amount_or_zero : Option Value → TokenAmount
amount_or_zero none = 0
amount_or_zero (some v) = as_amount v

abbrev pub keep_symbols : List Symbol → List (Symbol × TokenAmount) → List (Symbol × TokenAmount)
keep_symbols symbols [] = []
keep_symbols symbols (e ∷ m) =
    if contains symbols e.0 then e ∷ keep_symbols symbols m else keep_symbols symbols m

module _ {S : Type 0} (p : Platform S) where
  unfoldable pub get_balance : Address → Symbol → LedgerStorage S → TokenAmount
  get_balance id symbol st =
      if p.is_anonymous id
      then 0
      else amount_or_zero (p.get st.persistent_store (key_for_account_balance p.identity id symbol))

  -- The loop of `get_all_balances`.
  unfoldable pub collect_balances :
      Address → List Symbol → LedgerStorage S → List (Symbol × TokenAmount)
  collect_balances id [] st = []
  collect_balances id (s ∷ symbols) st =
      let rest = collect_balances id symbols st in
      elim (p.get st.persistent_store (key_for_account_balance p.identity id s)) [
        | none ↦ rest
        | some v ↦ (s, as_amount v) ∷ rest
      ]

  unfoldable pub get_all_balances : Address → Action S (List (Symbol × TokenAmount))
  get_all_balances id st = elim (p.is_anonymous id) [
    | true ↦ (ok [], st)
    | false ↦ (get_symbols p >>= λ symbols st'. (ok (collect_balances id symbols st'), st')) st
  ]

  unfoldable pub get_multiple_balances :
      Address → List Symbol → Action S (List (Symbol × TokenAmount))
  get_multiple_balances id [] = get_all_balances id
  get_multiple_balances id (s ∷ symbols) =
      get_all_balances id >>= λ m. pure (keep_symbols (s ∷ symbols) m)

  -- The inner and the outer loop of `with_balances`.
  unfoldable pub balance_entries : Tickers → Address → List (Symbol × TokenAmount) → Result Batch
  balance_entries symbols id [] = ok []
  balance_entries symbols id ((s, tokens) ∷ m) =
      let rest = balance_entries symbols id m in
      if is_some (map_get s symbols)
      then (elim rest [
        | ok b ↦ ok ((key_for_account_balance p.identity id s, put (amount tokens)) ∷ b)
        | err e ↦ err e
      ])
      else err (unknown unknown_symbol_for_identity)

  unfoldable pub initial_batch :
      Tickers → List (Address × List (Symbol × TokenAmount)) → Result Batch
  initial_batch symbols [] = ok []
  initial_batch symbols ((id, m) ∷ balances) =
      let rest = initial_batch symbols balances in
      elim (balance_entries symbols id m) [
        | err e ↦ err e
        | ok b ↦ elim rest [ ok b' ↦ ok (b ++ b') | err e ↦ err e ]
      ]

  unfoldable pub with_balances : Tickers → List (Address × List (Symbol × TokenAmount)) → Action S ⊤
  with_balances symbols balances = do batch ← lift (initial_batch symbols balances); apply p batch

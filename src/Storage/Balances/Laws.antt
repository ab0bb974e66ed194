-- ===== src/Storage/Balances/Laws.antt =====
-- The balances that `get_multiple_balances` finds are those that `get_balance` reads, for the
-- symbols that the ledger lists.
use many_framework.Prelude.{
  ◌≡◌, refl, true, false, List, [], ◌∷◌, ==_iff, if◌then◌else◌, arith, unwrap_or,
}
use many_framework.Types.{Address, Symbol, ok}
use many_framework.Platform.{Platform}
use many_framework.Storage.State.{LedgerStorage}
use many_framework.Storage.Keys.{key_for_account_balance}
use many_framework.Storage.Basic.{contains, get_symbols}
use many_framework.Storage.Balances.{
  amount_or_zero, map_get, get_balance, collect_balances, get_all_balances, keep_symbols,
  get_multiple_balances,
}

module _ {S : Type 0} (p : Platform S) (id : Address) (symbol : Symbol) (st : LedgerStorage S) where
  pub map_get-collect_balances :
      (symbols : List Symbol)
      → unwrap_or (map_get symbol (keep_symbols (symbol ∷ []) (collect_balances p id symbols st))) 0
        ≡ (if contains symbols symbol
            then amount_or_zero
                (p.get st.persistent_store (key_for_account_balance p.identity id symbol))
            else 0)
  unfolding collect_balances
  map_get-collect_balances [] = refl
  map_get-collect_balances (s ∷ symbols) =
      ground (arith, map_get-collect_balances symbols, ==_iff s symbol)

  get_all_balances_lem :
      (symbols : List Symbol)
      → get_symbols p st ≡ (ok symbols, st)
      → p.is_anonymous id ≡ false
      → get_all_balances p id st ≡ (ok (collect_balances p id symbols st), st)
  unfolding get_all_balances
  get_all_balances_lem symbols h named = ground arith

  pub get_multiple_balances_lem :
      (symbols : List Symbol)
      → get_symbols p st ≡ (ok symbols, st)
      → p.is_anonymous id ≡ false
      → get_multiple_balances p id (symbol ∷ []) st
        ≡ (ok (keep_symbols (symbol ∷ []) (collect_balances p id symbols st)), st)
  unfolding get_multiple_balances
  get_multiple_balances_lem symbols h named = ground (arith, get_all_balances_lem symbols h named)

  pub get_multiple_anonymous :
      p.is_anonymous id ≡ true → get_multiple_balances p id (symbol ∷ []) st ≡ (ok [], st)
  unfolding get_multiple_balances get_all_balances
  get_multiple_anonymous h = ground arith

  -- For a listed symbol and a named address, the entry found is the balance.
  pub found-get_balance :
      (symbols : List Symbol)
      → contains symbols symbol ≡ true
      → p.is_anonymous id ≡ false
      → unwrap_or (map_get symbol (keep_symbols (symbol ∷ []) (collect_balances p id symbols st))) 0
        ≡ get_balance p id symbol st
  unfolding get_balance
  found-get_balance symbols listed named = ground (arith, map_get-collect_balances symbols)

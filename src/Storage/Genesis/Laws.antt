-- ===== src/Storage/Genesis/Laws.antt =====
-- A genesis file with two tokens or more is refused.
use many_framework.Prelude.{ℕ, ◌≡◌, true, false, Option, some, List, [], ◌∷◌, arith, inl, inr}
use many_framework.Types.{Address, Symbol, TokenAmount, Tickers, Batch, ok}
use many_framework.Platform.{Platform, IsPlatform, is_sorted, token_migration}
use many_framework.Storage.State.{LedgerStorage}
use many_framework.Storage.Keys.{key_for_symbol, key_for_ext_info}
use many_framework.Storage.Basic.Laws.{apply_unsorted}
use many_framework.Storage.Basic.Subresources.{Result-cases}
use many_framework.Storage.Accounts.{is_ok}
use many_framework.Storage.Genesis.{
  SymbolMeta, Balances, total_supplies, token_entries, store_tokens, with_tokens,
}

module _ {S : Type 0} (p : Platform S) (l : IsPlatform p) where
  -- The entries of a second token do not follow those of the first.
  token_entries-unsorted :
      (symbols : Tickers) (supplies : List (Symbol × TokenAmount)) (s s' : Symbol)
      (meta meta' : SymbolMeta) (m : List (Symbol × SymbolMeta)) (b : Batch)
      → token_entries p symbols supplies ((s, meta) ∷ (s', meta') ∷ m) ≡ ok b
      → is_sorted b ≡ false
  unfolding token_entries key_for_symbol key_for_ext_info
  token_entries-unsorted symbols supplies s s' meta meta' m b e = grind arith

  -- Where the token migration is active, a genesis file that describes two tokens or more is
  -- refused.
  pub with_tokens_refused :
      (symbols : Tickers) (s s' : Symbol) (meta meta' : SymbolMeta) (m : List (Symbol × SymbolMeta))
      (token_identity : Option Address) (next : Option ℕ) (balances : Balances)
      (st : LedgerStorage S)
      → st.migrations.is_active token_migration ≡ true
      → is_ok
          (with_tokens p symbols
            (some ((s, meta) ∷ (s', meta') ∷ m))
            token_identity
            next
            balances
            st).0
        ≡ false
  unfolding with_tokens store_tokens
  with_tokens_refused symbols s s' meta meta' m token_identity next balances st active =
      let supplies = total_supplies balances [] in
      let all = (s, meta) ∷ (s', meta') ∷ m in
      elim (Result-cases (token_entries p symbols supplies all)) [
        | inl (b, made) ↦ ground (
          arith,
          made,
          apply_unsorted p l b st
              (token_entries-unsorted symbols supplies s s' meta meta' m b made),
        )
        | inr (e, failed) ↦ ground (arith, failed)
      ]

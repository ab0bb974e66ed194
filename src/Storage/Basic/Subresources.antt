-- ===== src/Storage/Basic/Subresources.antt =====
-- Taking the next subresource: the search for a free one ends, finds one that no symbol has, and
-- stores nothing but the counter.
use many_framework.Prelude.{
  ℕ, zero, suc, ◌+◌, ◌%◌, ◌≤◌, ◌<◌, ◌≡◌, ◌≢◌, refl, false, some, List, [], ◌∷◌, Bytes, bytes_eq,
  arith, Bool-cases, Option-cases, inl, inr, ◌⊎◌,
}
use many_framework.Types.{
  Address, Symbol, Result, ok, err, put, be_u32, Batch, out_of_fuel, ManyError,
}
use many_framework.Platform.{Platform, IsPlatform, token_migration}
use many_framework.Storage.State.{LedgerStorage}
use many_framework.Storage.Keys.{key_for_subresource_counter}
use many_framework.Storage.Basic.{
  contains, identity_or_server, get_identity, get_symbols, get_symbols_by_key,
  get_symbols_and_tickers, skip_symbols, get_next_subresource, find_counter, use_counter, u32_mod,
}
use many_framework.Storage.Basic.Laws.{value, written, apply_sorted, value-written}

pub Result-cases {ℓ} :
    {A : Type ℓ} (r : Result A) → ((a : A) × (r ≡ ok a)) ⊎ ((e : ManyError) × (r ≡ err e))
Result-cases (ok a) = inl (a, refl)
Result-cases (err e) = inr (e, refl)

module _ {S : Type 0} (p : Platform S) where
  pub identity_or_server_same :
      (root : Bytes) (st : LedgerStorage S) → (identity_or_server p root st).1 ≡ st
  unfolding identity_or_server get_identity
  identity_or_server_same root st = ground arith

  pub get_symbols_and_tickers_same : (st : LedgerStorage S) → (get_symbols_and_tickers p st).1 ≡ st
  unfolding get_symbols_and_tickers
  get_symbols_and_tickers_same st = ground arith

  pub get_symbols_same : (st : LedgerStorage S) → (get_symbols p st).1 ≡ st
  unfolding get_symbols get_symbols_by_key
  get_symbols_same st = ground (arith, get_symbols_and_tickers_same st)

  -- The loop, started below the maximum with one round of fuel for each counter up to it, does not
  -- run out of fuel.
  pub skip_symbols-ne-out_of_fuel :
      (fuel : ℕ) (symbols : List Symbol) (id : Address) (current : ℕ) (next : Address)
      → p.max_subresource_id < current + fuel
      → current ≤ p.max_subresource_id
      → skip_symbols p fuel symbols id current next ≢ err out_of_fuel
  unfolding skip_symbols
  skip_symbols-ne-out_of_fuel zero symbols id current next fuel_left in_range = absurd (omega arith)
  skip_symbols-ne-out_of_fuel (suc fuel) symbols id current next fuel_left in_range =
      elim (Option-cases (p.with_subresource_id id (current + 1))) [
        | inl refused ↦ ground arith
        | inr (a, e) ↦ ground (arith, skip_symbols-ne-out_of_fuel fuel symbols id (current + 1) a)
      ]

  -- The counter that the loop ends with lies between the first one and the maximum, and the address
  -- that it gives is no symbol.
  pub skip_symbols-free :
      (fuel : ℕ) (symbols : List Symbol) (id : Address) (current : ℕ) (next : Address) {found : ℕ}
      → current ≤ p.max_subresource_id
      → p.with_subresource_id id current ≡ some next
      → skip_symbols p fuel symbols id current next ≡ ok found
      → (current ≤ found)
        × (found ≤ p.max_subresource_id)
        × (a : Address) × (p.with_subresource_id id found ≡ some a)
        × (contains symbols a ≡ false)
  unfolding skip_symbols
  skip_symbols-free zero symbols id current next in_range here h = cc
  skip_symbols-free (suc fuel) symbols id current next {found} in_range here h =
      elim (Bool-cases (contains symbols next)) [
        | inl taken ↦ elim (Option-cases (p.with_subresource_id id (current + 1))) [
          | inl refused ↦ absurd (ground arith)
          | inr (a, e) ↦
              let more : skip_symbols p fuel symbols id (current + 1) a ≡ ok found = ground arith in
              let later = skip_symbols-free fuel symbols id (current + 1) a (ground arith) e more in
              (omega (arith, later.0), later.1, later.2, later.3, later.4)
        ]
        | inr free ↦
            let same : found ≡ current = ground arith in
            (omega arith, omega arith, next, rw same here, free)
      ]

  pub find_counter_same : (id : Address) (st : LedgerStorage S) → (find_counter p id st).1 ≡ st
  unfolding find_counter
  find_counter_same id st = ground (arith, get_symbols_same st)

module _ {S : Type 0} (p : Platform S) (l : IsPlatform p) where
  value-use_counter :
      (root : Bytes) (id : Address) (current : ℕ) (st : LedgerStorage S) (k : Bytes)
      → bytes_eq
          (key_for_subresource_counter p.identity id (st.migrations.is_active token_migration))
          k
        ≡ false
      → value p (use_counter p root id current st).1 k ≡ value p st k
  unfolding use_counter
  value-use_counter root id current st k other =
      let b : Batch =
        (
          key_for_subresource_counter p.identity id (st.migrations.is_active token_migration),
          put (be_u32 ((current + 1) % u32_mod)),
        )
        ∷ [] in
      ground (
        arith,
        apply_sorted p l b st refl,
        identity_or_server_same p root (written p b st),
        value-written p l b st k refl,
      )

  -- Whatever it returns, taking a subresource stores nothing but a counter.
  pub value-get_next_subresource :
      (root : Bytes) (st : LedgerStorage S) (k : Bytes)
      → ((id : Address)
          → bytes_eq
              (key_for_subresource_counter p.identity id (st.migrations.is_active token_migration))
              k
            ≡ false)
      → value p (get_next_subresource p root st).1 k ≡ value p st k
  unfolding get_next_subresource
  value-get_next_subresource root st k other =
      go (identity_or_server p root st).0 (identity_or_server p root st).1 refl refl
    where
      go :
          (r : Result Address) (st' : LedgerStorage S)
          → (identity_or_server p root st).0 ≡ r
          → (identity_or_server p root st).1 ≡ st'
          → value p (get_next_subresource p root st).1 k ≡ value p st k
      go (err e) st' h h' = ground (arith, identity_or_server_same p root st)
      go (ok id) st' h h' = elim (Result-cases (find_counter p id st).0) [
        | inl (n, found) ↦ ground (
          arith,
          identity_or_server_same p root st,
          find_counter_same p id st,
          value-use_counter root id n st k (other id),
        )
        | inr (e, stopped) ↦
            ground (arith, identity_or_server_same p root st, find_counter_same p id st)
      ]

-- ===== src/Invariant/Tokens.antt =====
-- The methods on tokens and on the identity store keep the storage sound.
use many_framework.Prelude.{
  ◌≡◌, refl, true, Option, none, some, List, [], ◌∷◌, ◌++◌, arith, Bytes, ◌&&◌, inl, inr, ◌+◌, ◌-◌,
}
use many_framework.Types.{
  Address, Symbol, Memo, TokenAmount, Distribution, TokenExtendedInfo, ExtendedInfoKey,
  TokenCreateArgs, TokenUpdateArgs, TokenInfoSupply, Op, Batch, ok, token_info, put,
}
use many_framework.Platform.{Platform, IsPlatform}
use many_framework.Storage.State.{LedgerStorage, ◌>>◌}
use many_framework.Storage.Basic.{apply, maybe_commit}
use many_framework.Storage.Balances.{get_all_balances, get_multiple_balances}
use many_framework.Storage.Basic.Subresources.{
  Result-cases, get_symbols_same, get_symbols_and_tickers_same,
}
use many_framework.Storage.Tokens.{
  insert_entry, sort_batch, distribution_batch, update_symbols, create_token, info_token,
  update_ticker, update_token, add_extended_info, remove_extended_info,
}
use many_framework.Storage.MintBurn.{
  with_supply, get_token_supply, mint_entries, mint_token, burn_entries, burn_token,
}
use many_framework.Storage.Keys.{key_for_symbol}
use many_framework.Storage.IdStore.{inc_idstore_seed, store}
use many_framework.Invariant.Sound.{
  Sound, is_plain, is_plain_op, apply_plain-Sound, maybe_commit-Sound, log_event-Sound,
}
use many_framework.Invariant.Storage.{get_next_subresource-Sound}

is_plain-insert_entry :
    (k : Bytes) (op : Op) (b : Batch)
    → is_plain (insert_entry k op b) ≡ (is_plain_op op && is_plain b)
unfolding insert_entry
is_plain-insert_entry k op [] = refl
is_plain-insert_entry k op ((j, o) ∷ b) = ground (arith, is_plain-insert_entry k op b)

is_plain-sort_batch : (b : Batch) → is_plain (sort_batch b) ≡ is_plain b
unfolding sort_batch
is_plain-sort_batch [] = refl
is_plain-sort_batch ((k, op) ∷ b) =
    ground (arith, is_plain-insert_entry k op (sort_batch b), is_plain-sort_batch b)

is_plain-append : (b c : Batch) → is_plain (b ++ c) ≡ (is_plain b && is_plain c)
is_plain-append [] c = refl
is_plain-append ((k, op) ∷ b) c = ground (arith, is_plain-append b c)

module _ {S : Type 0} (p : Platform S) where
  is_plain-distribution_batch :
      (symbol : Symbol) (d : Distribution) → is_plain (distribution_batch p symbol d) ≡ true
  unfolding distribution_batch
  is_plain-distribution_batch symbol [] = refl
  is_plain-distribution_batch symbol ((id, n) ∷ d) =
      ground (arith, is_plain-distribution_batch symbol d)

  info_token_same :
      (symbol : Symbol) (indices : Option (List ExtendedInfoKey)) (st : LedgerStorage S)
      → (info_token p symbol indices st).1 ≡ st
  unfolding info_token
  info_token_same symbol indices st = ground arith

  get_token_supply_same :
      (symbol : Symbol) (st : LedgerStorage S) → (get_token_supply p symbol st).1 ≡ st
  unfolding get_token_supply
  get_token_supply_same symbol st = ground (arith, info_token_same symbol none st)

  get_all_balances_same : (id : Address) (st : LedgerStorage S) → (get_all_balances p id st).1 ≡ st
  unfolding get_all_balances
  get_all_balances_same id st = ground (arith, get_symbols_same p st)

  get_multiple_balances_same :
      (id : Address) (symbols : List Symbol) (st : LedgerStorage S)
      → (get_multiple_balances p id symbols st).1 ≡ st
  unfolding get_multiple_balances
  get_multiple_balances_same id [] st = get_all_balances_same id st
  get_multiple_balances_same id (s ∷ symbols) st = ground (arith, get_all_balances_same id st)

  mint_entries_same :
      (symbol : Symbol) (supply : TokenInfoSupply) (d : Distribution) (n : TokenAmount)
      (st : LedgerStorage S)
      → (mint_entries p symbol supply d n st).1 ≡ st
  unfolding mint_entries
  mint_entries_same symbol supply [] n st = refl
  mint_entries_same symbol supply ((id, m) ∷ d) n st = ground (
    arith,
    mint_entries_same symbol supply d (n + m) st,
    get_multiple_balances_same id (symbol ∷ []) st,
  )

  mint_entries-plain :
      (symbol : Symbol) (supply : TokenInfoSupply) (d : Distribution) (n : TokenAmount)
      (st : LedgerStorage S) (r : TokenAmount × Batch)
      → (mint_entries p symbol supply d n st).0 ≡ ok r
      → is_plain r.1 ≡ true
  unfolding mint_entries
  mint_entries-plain symbol supply [] n st r e = grind arith
  mint_entries-plain symbol supply ((id, m) ∷ d) n st r e = grind (
    arith,
    mint_entries-plain symbol supply d (n + m) st,
    get_multiple_balances_same id (symbol ∷ []) st,
  )

  burn_entries_same :
      (symbol : Symbol) (d : Distribution) (n : TokenAmount) (st : LedgerStorage S)
      → (burn_entries p symbol d n st).1 ≡ st
  unfolding burn_entries
  burn_entries_same symbol [] n st = refl
  burn_entries_same symbol ((id, m) ∷ d) n st =
      grind (
        arith,
        burn_entries_same symbol d (n + m) st,
        get_multiple_balances_same id (symbol ∷ []) st,
      )

  burn_entries-plain :
      (symbol : Symbol) (d : Distribution) (n : TokenAmount) (st : LedgerStorage S)
      (r : TokenAmount × Batch)
      → (burn_entries p symbol d n st).0 ≡ ok r
      → is_plain r.1 ≡ true
  unfolding burn_entries
  burn_entries-plain symbol [] n st r e = grind arith
  burn_entries-plain symbol ((id, m) ∷ d) n st r e = grind (
    arith,
    burn_entries-plain symbol d (n + m) st,
    get_multiple_balances_same id (symbol ∷ []) st,
  )

module _ {S : Type 0} (p : Platform S) (l : IsPlatform p) where
  save_plain-Sound :
      (b : Batch) (st : LedgerStorage S)
      → is_plain b ≡ true
      → Sound p st
      → Sound p ((apply p b >> maybe_commit p) st).1
  save_plain-Sound b st plain h = grind (arith, apply_plain-Sound p l b st, maybe_commit-Sound p l)

  pub mint_token-Sound :
      (symbol : Symbol) (d : Distribution) (st : LedgerStorage S)
      → Sound p st
      → Sound p (mint_token p symbol d st).1
  unfolding mint_token
  mint_token-Sound symbol d st h = grind (
    arith,
    get_token_supply_same p symbol st,
    mint_entries_same p symbol,
    mint_entries-plain p symbol,
    info_token_same p symbol,
    is_plain-append,
    apply_plain-Sound p l,
    maybe_commit-Sound p l,
  )

  pub burn_token-Sound :
      (symbol : Symbol) (d : Distribution) (st : LedgerStorage S)
      → Sound p st
      → Sound p (burn_token p symbol d st).1
  unfolding burn_token
  burn_token-Sound symbol d st h =
      let same = burn_entries_same p symbol d 0 st in
      elim (Result-cases (burn_entries p symbol d 0 st).0) [
        | inl (r, taken) ↦
            let read = info_token_same p symbol none st in
            elim (Result-cases (info_token p symbol none st).0) [
              | inl (i, found) ↦
                  let info =
                    with_supply i.0 (i.0.supply.circulating - r.0) (i.0.supply.total - r.0) in
                  let b : Batch =
                    r.1 ++ (key_for_symbol p.identity symbol, put (token_info info)) ∷ [] in
                  ground (
                    arith,
                    same,
                    taken,
                    read,
                    found,
                    save_plain-Sound b st
                        (ground (
                          arith,
                          burn_entries-plain p symbol d 0 st r taken,
                          is_plain-append r.1
                              ((key_for_symbol p.identity symbol, put (token_info info)) ∷ []),
                        ))
                        h,
                  )
              | inr (e, missing) ↦ ground (arith, same, taken, read, missing)
            ]
        | inr (e, refused) ↦ ground (arith, same, refused)
      ]

  update_symbols-Sound :
      (symbol : Symbol) (ticker : Bytes) (st : LedgerStorage S)
      → Sound p st
      → Sound p (update_symbols p symbol ticker st).1
  unfolding update_symbols
  update_symbols-Sound symbol ticker st h =
      grind (arith, get_symbols_and_tickers_same p st, apply_plain-Sound p l)

  pub create_token-Sound :
      (sender : Address) (args : TokenCreateArgs) (st : LedgerStorage S)
      → Sound p st
      → Sound p (create_token p sender args st).1
  unfolding create_token
  create_token-Sound sender args st h = grind (
    arith,
    get_next_subresource-Sound p l,
    update_symbols-Sound,
    is_plain-sort_batch,
    is_plain-append,
    is_plain-distribution_batch p,
    log_event-Sound p l,
    apply_plain-Sound p l,
    maybe_commit-Sound p l,
  )

  update_ticker-Sound :
      (symbol : Symbol) (ticker : Option Bytes) (st : LedgerStorage S)
      → Sound p st
      → Sound p (update_ticker p symbol ticker st).1
  unfolding update_ticker
  update_ticker-Sound symbol none st h = h
  update_ticker-Sound symbol (some ticker) st h =
      grind (arith, get_symbols_and_tickers_same p st, update_symbols-Sound)

  pub update_token-Sound :
      (sender : Address) (args : TokenUpdateArgs) (st : LedgerStorage S)
      → Sound p st
      → Sound p (update_token p sender args st).1
  unfolding update_token
  update_token-Sound sender args st h = grind (
    arith,
    update_ticker-Sound,
    log_event-Sound p l,
    apply_plain-Sound p l,
    maybe_commit-Sound p l,
  )

  pub add_extended_info-Sound :
      (symbol : Symbol) (new : TokenExtendedInfo) (memo : Option Memo) (st : LedgerStorage S)
      → Sound p st
      → Sound p (add_extended_info p symbol new memo st).1
  unfolding add_extended_info
  add_extended_info-Sound symbol new memo st h =
      grind (arith, log_event-Sound p l, apply_plain-Sound p l, maybe_commit-Sound p l)

  pub remove_extended_info-Sound :
      (symbol : Symbol) (keys : List ExtendedInfoKey) (memo : Option Memo) (st : LedgerStorage S)
      → Sound p st
      → Sound p (remove_extended_info p symbol keys memo st).1
  unfolding remove_extended_info
  remove_extended_info-Sound symbol keys memo st h =
      grind (arith, log_event-Sound p l, apply_plain-Sound p l, maybe_commit-Sound p l)

  pub inc_idstore_seed-Sound :
      (st : LedgerStorage S) → Sound p st → Sound p (inc_idstore_seed p st).1
  unfolding inc_idstore_seed
  inc_idstore_seed-Sound st h = grind (arith, apply_plain-Sound p l, maybe_commit-Sound p l)

  pub store-Sound :
      (phrase : List Bytes) (id : Address) (cred_id public_key : Bytes) (st : LedgerStorage S)
      → Sound p st
      → Sound p (store p phrase id cred_id public_key st).1
  unfolding store
  store-Sound phrase id cred_id public_key st h =
      grind (arith, apply_plain-Sound p l, maybe_commit-Sound p l)

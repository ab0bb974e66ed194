-- ===== src/Storage/MintBurn/Minting.antt =====
-- What minting does.
use many_framework.Prelude.{
  ⊤, ◌+◌, ◌≤◌, ◌≡◌, ◌≢◌, refl, true, false, Bool, Option, none, some, List, [], ◌∷◌, ◌++◌, ◌==◌,
  ==_iff, ◌||◌, if◌then◌else◌, arith, unwrap_or, Bool-cases, inl, inr,
}
use native.Mathlib.Nat.{add_assoc, add-zero, zero-add}
use many_framework.Types.{
  Address, Symbol, TokenAmount, Distribution, TokenInfo, TokenInfoSupply, TokenExtendedInfo, Value,
  amount, token_info, put, Batch, ok, err, storage_apply_failed, ManyError,
  unable_to_distribute_zero, over_maximum_supply,
}
use many_framework.Platform.{Platform, IsPlatform, batch_get, is_sorted}
use many_framework.Storage.State.{LedgerStorage}
use many_framework.Storage.Keys.{key_for_account_balance, key_for_symbol}
use many_framework.Storage.Keys.Distinct.{key_for_account_balance_eq}
use many_framework.Storage.Basic.{contains, get_symbols}
use many_framework.Storage.Basic.Laws.{
  written, committed, value, apply_sorted, apply_unsorted, value-written, value-committed,
  maybe_commit_lem,
}
use many_framework.Storage.Balances.{
  get_balance, amount_or_zero, map_get, keep_symbols, collect_balances, get_multiple_balances,
}
use many_framework.Storage.Balances.Laws.{
  get_multiple_balances_lem, get_multiple_anonymous, found-get_balance,
}
use many_framework.Storage.Tokens.{info_token, total_of}
use many_framework.Storage.MintBurn.{
  exceeds, plus_found, maximum_or_zero, get_token_supply, mint_entries, with_supply, mint_token,
}

-- What a distribution gives an address.
abbrev pub share : Address → Distribution → TokenAmount
share id [] = 0
share id ((j, n) ∷ d) = if j == id then n else share id d

abbrev pub is_in : Address → Distribution → Bool
is_in id [] = false
is_in id ((j, n) ∷ d) = j == id || is_in id d

plus_found-unwrap_or :
    (o : Option TokenAmount) (n : TokenAmount) → plus_found o n ≡ unwrap_or o 0 + n
plus_found-unwrap_or none n = omega arith
plus_found-unwrap_or (some b) n = refl

exceeds_mono :
    (m : Option TokenAmount) {a b : TokenAmount} → a ≤ b → exceeds m b ≡ false → exceeds m a ≡ false
exceeds_mono none h e = refl
exceeds_mono (some m) h e = ground arith

module _ {S : Type 0} (p : Platform S) where
  -- Every address is a named one, and every amount is positive.
  abbrev pub IsMintable : Distribution → Type 0
  IsMintable [] = ⊤
  IsMintable ((id, n) ∷ d) = (p.is_anonymous id ≡ false) × (n ≢ 0) × IsMintable d

  unfoldable pub minted_entries : Symbol → Distribution → LedgerStorage S → Batch
  minted_entries symbol [] st = []
  minted_entries symbol ((id, n) ∷ d) st =
      (key_for_account_balance p.identity id symbol, put (amount (get_balance p id symbol st + n)))
      ∷ minted_entries symbol d st

  -- The whole batch: the new balances and the new supply.
  unfoldable pub mint_batch : Symbol → TokenInfo → Distribution → LedgerStorage S → Batch
  mint_batch symbol info d st =
      minted_entries symbol d st
      ++ (
        key_for_symbol p.identity symbol,
        put (
            token_info (
              with_supply info (info.supply.circulating + total_of d)
                (info.supply.total + total_of d))),
      )
        ∷ []

module _ {S : Type 0} (p : Platform S) (l : IsPlatform p) (symbol : Symbol) (st : LedgerStorage S)
    (symbols : List Symbol) (found : get_symbols p st ≡ (ok symbols, st))
    (listed : contains symbols symbol ≡ true) where
  mint_entries_lem :
      (supply : TokenInfoSupply) (d : Distribution) (c : TokenAmount)
      → IsMintable p d
      → exceeds supply.maximum (supply.circulating + (c + total_of d)) ≡ false
      → mint_entries p symbol supply d c st
        ≡ (ok (c + total_of d, minted_entries p symbol d st), st)
  unfolding mint_entries minted_entries
  mint_entries_lem supply [] c m h = ground arith
  mint_entries_lem supply ((id, n) ∷ d) c m h =
      let balances = keep_symbols (symbol ∷ []) (collect_balances p id symbols st) in
      ground (
        arith,
        exceeds_mono supply.maximum {a = supply.circulating + (c + n)}
            {b = supply.circulating + (c + (n + total_of d))},
        get_multiple_balances_lem p id symbol st symbols found m.0,
        found-get_balance p id symbol st symbols listed m.0,
        plus_found-unwrap_or (map_get symbol balances) n,
        mint_entries_lem supply d (c + n) m.2,
      )

  -- For a token that the ledger lists and whose record can be read: minting positive amounts to
  -- named addresses within the maximum writes the batch if its keys ascend, and otherwise is refused
  -- by the store with nothing changed.
  pub mint_token_lem :
      (info : TokenInfo × TokenExtendedInfo) (d : Distribution)
      → info_token p symbol none st ≡ (ok info, st)
      → IsMintable p d
      → exceeds info.0.supply.maximum (info.0.supply.circulating + total_of d) ≡ false
      → mint_token p symbol d st ≡ (
          if is_sorted (mint_batch p symbol info.0 d st)
          then (ok tt, committed p (written p (mint_batch p symbol info.0 d st) st))
          else (err storage_apply_failed, st))
  unfolding mint_token get_token_supply mint_batch
  mint_token_lem info d h m max = ground (
    arith,
    mint_entries_lem info.0.supply d 0 m,
    apply_sorted p l (mint_batch p symbol info.0 d st) st,
    apply_unsorted p l (mint_batch p symbol info.0 d st) st,
    maybe_commit_lem p (written p (mint_batch p symbol info.0 d st) st),
  )

module _ {S : Type 0} (p : Platform S) (l : IsPlatform p) where
  batch_get-minted_entries :
      (symbol s : Symbol) (d : Distribution) (id : Address) (v : Value) (st : LedgerStorage S)
      → amount_or_zero (
          batch_get
            (minted_entries p symbol d st ++ (key_for_symbol p.identity symbol, put v) ∷ [])
            (key_for_account_balance p.identity id s)
            (value p st (key_for_account_balance p.identity id s)))
        ≡ (if s == symbol
            then (if is_in id d
                then get_balance p id s st + share id d
                else amount_or_zero (value p st (key_for_account_balance p.identity id s)))
            else amount_or_zero (value p st (key_for_account_balance p.identity id s)))
  unfolding minted_entries
  batch_get-minted_entries symbol s [] id v st =
      unfold key_for_account_balance key_for_symbol in ground arith
  batch_get-minted_entries symbol s ((j, n) ∷ d) id v st = ground (
    arith,
    batch_get-minted_entries symbol s d id v st,
    key_for_account_balance_eq p.identity l.is_identity j id symbol s,
    ==_iff j id,
    ==_iff s symbol,
  )

module _ {S : Type 0} (p : Platform S) (l : IsPlatform p) (symbol : Symbol) (st : LedgerStorage S)
    (symbols : List Symbol) (found : get_symbols p st ≡ (ok symbols, st))
    (listed : contains symbols symbol ≡ true) (info : TokenInfo × TokenExtendedInfo)
    (d : Distribution) (known : info_token p symbol none st ≡ (ok info, st)) where
  share_anonymous :
      (d : Distribution) (id : Address)
      → IsMintable p d
      → p.is_anonymous id ≡ true
      → is_in id d ≡ false
  share_anonymous [] id m a = refl
  share_anonymous ((j, n) ∷ d) id m a = ground (arith, share_anonymous d id m.2 a, ==_iff j id)

  share-not_in : (id : Address) (d : Distribution) → is_in id d ≡ false → share id d ≡ 0
  share-not_in id [] h = refl
  share-not_in id ((j, n) ∷ d) h = ground (arith, share-not_in id d)

  -- For a token that the ledger lists and whose record can be read: minting to named addresses,
  -- positive amounts, within the maximum, with the batch's keys in ascending order, succeeds; each
  -- address gets its share of that token, and every other balance stays.
  pub mint_token_balances :
      IsMintable p d
      → exceeds info.0.supply.maximum (info.0.supply.circulating + total_of d) ≡ false
      → is_sorted (mint_batch p symbol info.0 d st) ≡ true
      → (id : Address) (s : Symbol)
      → let after = mint_token p symbol d st in
        (after.0 ≡ ok tt)
        × (get_balance p id s after.1
            ≡ get_balance p id s st + (if s == symbol then share id d else 0))
  unfolding mint_batch get_balance
  mint_token_balances m max sorted id s =
      let v = token_info (
        with_supply info.0 (info.0.supply.circulating + total_of d)
          (info.0.supply.total + total_of d)) in
      ground (
        arith,
        mint_token_lem p l symbol st symbols found listed info d known m max,
        value-committed p l (written p (mint_batch p symbol info.0 d st) st)
            (key_for_account_balance p.identity id s),
        value-written p l (mint_batch p symbol info.0 d st) st
            (key_for_account_balance p.identity id s) sorted,
        batch_get-minted_entries p l symbol s d id v st,
        share_anonymous d id m,
        share-not_in id d,
      )

  get_multiple_total :
      (id : Address)
      → (m : List (Symbol × TokenAmount)) × (get_multiple_balances p id (symbol ∷ []) st
          ≡ (ok m, st))
  get_multiple_total id = elim (Bool-cases (p.is_anonymous id)) [
    | inl anonymous ↦ ([], get_multiple_anonymous p id symbol st anonymous)
    | inr named ↦ (
      keep_symbols (symbol ∷ []) (collect_balances p id symbols st),
      get_multiple_balances_lem p id symbol st symbols found named,
    )
  ]

  -- The loop stops with an error at the latest when the amount so far passes the maximum.
  mint_entries_over :
      (supply : TokenInfoSupply) (d : Distribution) (c : TokenAmount)
      → exceeds supply.maximum (supply.circulating + c) ≡ false
      → exceeds supply.maximum (supply.circulating + (c + total_of d)) ≡ true
      → (e : ManyError) × (mint_entries p symbol supply d c st ≡ (err e, st))
  unfolding mint_entries
  mint_entries_over supply [] c fits over = absurd (ground arith)
  mint_entries_over supply ((id, n) ∷ d) c fits over = elim (Bool-cases (n == 0)) [
    | inl zero_amount ↦ (unable_to_distribute_zero id, ground arith)
    | inr positive ↦ elim (Bool-cases (exceeds supply.maximum (supply.circulating + (c + n)))) [
      | inl now_over ↦
          (over_maximum_supply symbol (c + n) (maximum_or_zero supply.maximum), ground arith)
      | inr still_fits ↦
          let later =
            mint_entries_over supply d (c + n) still_fits
              (rw (← add_assoc c n (total_of d)) at over) in
          (later.0, ground (arith, later.1, (get_multiple_total id).1))
    ]
  ]

  -- For a token that the ledger lists, whose record can be read and whose circulation does not pass
  -- its maximum: a mint that would pass the maximum fails, and changes nothing.
  pub mint_token_over :
      exceeds info.0.supply.maximum info.0.supply.circulating ≡ false
      → exceeds info.0.supply.maximum (info.0.supply.circulating + total_of d) ≡ true
      → (e : ManyError) × (mint_token p symbol d st ≡ (err e, st))
  unfolding mint_token get_token_supply
  mint_token_over fits over =
      let stopped = mint_entries_over info.0.supply d 0 (rw add-zero fits) (rw zero-add over) in
      (stopped.0, ground (arith, stopped.1))

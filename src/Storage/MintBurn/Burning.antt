-- ===== src/Storage/MintBurn/Burning.antt =====
-- What burning does.
use many_framework.Prelude.{
  ⊤, ◌+◌, ◌-◌, ◌≤◌, ◌≡◌, ◌≢◌, refl, true, false, Option, none, some, List, [], ◌∷◌, ◌++◌, ◌==◌,
  ==_iff, ◌||◌, ltb, leb, all, if◌then◌else◌, arith, unwrap_or, not, Bool-cases, inl, inr,
}
use many_framework.Types.{
  Address, Symbol, TokenAmount, Distribution, TokenInfo, TokenExtendedInfo, Value, amount,
  token_info, put, Batch, ok, err, storage_apply_failed, ManyError, unable_to_distribute_zero,
  missing_funds,
}
use many_framework.Platform.{Platform, IsPlatform, batch_get, is_sorted}
use many_framework.Storage.State.{LedgerStorage}
use many_framework.Storage.Keys.{key_for_account_balance, key_for_symbol}
use many_framework.Storage.Keys.Distinct.{key_for_account_balance_eq}
use many_framework.Storage.Basic.{contains, get_symbols}
use many_framework.Storage.Basic.Laws.{
  written, committed, value, apply_sorted, apply_unsorted, value-written, value-committed,
  maybe_commit_lem,
}
use many_framework.Storage.Balances.{
  get_balance, amount_or_zero, map_get, keep_symbols, collect_balances,
}
use many_framework.Storage.Balances.Laws.{get_multiple_balances_lem, found-get_balance}
use many_framework.Storage.Tokens.{info_token, total_of}
use many_framework.Storage.MintBurn.{burn_entries, funds_to_burn, with_supply, burn_token}
use many_framework.Storage.MintBurn.Minting.{share, is_in}

module _ {S : Type 0} (p : Platform S) where
  -- Every address is a named one that holds what it is to give, and every amount is positive.
  abbrev pub IsBurnable : Symbol → LedgerStorage S → Distribution → Type 0
  IsBurnable symbol st [] = ⊤
  IsBurnable symbol st ((id, n) ∷ d) =
      (p.is_anonymous id ≡ false)
      × (n ≢ 0)
      × (n ≤ get_balance p id symbol st)
      × IsBurnable symbol st d

  unfoldable pub burnt_entries : Symbol → Distribution → LedgerStorage S → Batch
  burnt_entries symbol [] st = []
  burnt_entries symbol ((id, n) ∷ d) st =
      (key_for_account_balance p.identity id symbol, put (amount (get_balance p id symbol st - n)))
      ∷ burnt_entries symbol d st

  -- The whole batch: the new balances and the new supply.
  unfoldable pub burn_batch : Symbol → TokenInfo → Distribution → LedgerStorage S → Batch
  burn_batch symbol info d st =
      burnt_entries symbol d st
      ++ (
        key_for_symbol p.identity symbol,
        put (
            token_info (
              with_supply info (info.supply.circulating - total_of d)
                (info.supply.total - total_of d))),
      )
        ∷ []

  funds_to_burn_lem :
      (symbol : Symbol) (n b : TokenAmount) (o : Option TokenAmount) (st : LedgerStorage S)
      → unwrap_or o 0 ≡ b
      → n ≢ 0
      → n ≤ b
      → funds_to_burn p symbol n o st ≡ (ok b, st)
  funds_to_burn_lem symbol n b none st e pos h = absurd (omega arith)
  funds_to_burn_lem symbol n b (some x) st e pos h = ground arith

  funds_to_burn_short :
      (symbol : Symbol) (n b : TokenAmount) (o : Option TokenAmount) (st : LedgerStorage S)
      → unwrap_or o 0 ≡ b
      → ltb b n ≡ true
      → funds_to_burn p symbol n o st ≡ (err (missing_funds symbol n b), st)
  funds_to_burn_short symbol n b none st e h = ground arith
  funds_to_burn_short symbol n b (some x) st e h = ground arith

module _ {S : Type 0} (p : Platform S) (l : IsPlatform p) (symbol : Symbol) (st : LedgerStorage S)
    (symbols : List Symbol) (found : get_symbols p st ≡ (ok symbols, st))
    (listed : contains symbols symbol ≡ true) where
  burn_entries_lem :
      (d : Distribution) (c : TokenAmount)
      → IsBurnable p symbol st d
      → burn_entries p symbol d c st ≡ (ok (c + total_of d, burnt_entries p symbol d st), st)
  unfolding burn_entries burnt_entries
  burn_entries_lem [] c m = ground arith
  burn_entries_lem ((id, n) ∷ d) c m =
      let balances = keep_symbols (symbol ∷ []) (collect_balances p id symbols st) in
      ground (
        arith,
        get_multiple_balances_lem p id symbol st symbols found m.0,
        funds_to_burn_lem p symbol n (get_balance p id symbol st) (map_get symbol balances) st
            (found-get_balance p id symbol st symbols listed m.0) m.1 m.2,
        burn_entries_lem d (c + n) m.3,
      )

  -- With the token's record at hand and a supply that covers the amount, burning writes the batch
  -- if its keys ascend, and otherwise is refused by the store with nothing changed.
  pub burn_token_lem :
      (info : TokenInfo × TokenExtendedInfo) (d : Distribution)
      → info_token p symbol none st ≡ (ok info, st)
      → IsBurnable p symbol st d
      → total_of d ≤ info.0.supply.circulating
      → total_of d ≤ info.0.supply.total
      → burn_token p symbol d st ≡ (
          if is_sorted (burn_batch p symbol info.0 d st)
          then (ok tt, committed p (written p (burn_batch p symbol info.0 d st) st))
          else (err storage_apply_failed, st))
  unfolding burn_token burn_batch
  burn_token_lem info d h m circulating total = ground (
    arith,
    burn_entries_lem d 0 m,
    apply_sorted p l (burn_batch p symbol info.0 d st) st,
    apply_unsorted p l (burn_batch p symbol info.0 d st) st,
    maybe_commit_lem p (written p (burn_batch p symbol info.0 d st) st),
  )

  burn_entries_short :
      (d : Distribution) (c : TokenAmount)
      → all (λ e. not (p.is_anonymous e.0)) d ≡ true
      → all (λ e. leb e.1 (get_balance p e.0 symbol st)) d ≡ false
      → (e : ManyError) × (burn_entries p symbol d c st ≡ (err e, st))
  unfolding burn_entries
  burn_entries_short [] c named short = cc
  burn_entries_short ((id, n) ∷ d) c named short = elim (Bool-cases (n == 0)) [
    | inl zero_amount ↦ (unable_to_distribute_zero id, ground arith)
    | inr positive ↦
        let balances = keep_symbols (symbol ∷ []) (collect_balances p id symbols st) in
        let is_named : p.is_anonymous id ≡ false = ground arith in
        let read = get_multiple_balances_lem p id symbol st symbols found is_named in
        let held = found-get_balance p id symbol st symbols listed is_named in
        elim (Bool-cases (ltb (get_balance p id symbol st) n)) [
          | inl too_much ↦ (
            missing_funds symbol n (get_balance p id symbol st),
            ground (
              arith,
              read,
              funds_to_burn_short p symbol n (get_balance p id symbol st) (map_get symbol balances)
                  st held too_much,
            ),
          )
          | inr enough ↦
              let later = burn_entries_short d (c + n) (ground arith) (ground arith) in
              (
                later.0,
                ground (
                  arith,
                  read,
                  later.1,
                  funds_to_burn_lem p symbol n (get_balance p id symbol st)
                      (map_get symbol balances) st held,
                ),
              )
        ]
  ]

  -- For a token that the ledger lists: a burn fails and changes nothing when some address of the
  -- distribution, all of them named, holds less of the token than it is to give.
  pub burn_token_short :
      (d : Distribution)
      → all (λ e. not (p.is_anonymous e.0)) d ≡ true
      → all (λ e. leb e.1 (get_balance p e.0 symbol st)) d ≡ false
      → (e : ManyError) × (burn_token p symbol d st ≡ (err e, st))
  unfolding burn_token
  burn_token_short d named short =
      let stopped = burn_entries_short d 0 named short in (stopped.0, ground (arith, stopped.1))

module _ {S : Type 0} (p : Platform S) (l : IsPlatform p) where
  batch_get-burnt_entries :
      (symbol s : Symbol) (d : Distribution) (id : Address) (v : Value) (st : LedgerStorage S)
      → amount_or_zero (
          batch_get
            (burnt_entries p symbol d st ++ (key_for_symbol p.identity symbol, put v) ∷ [])
            (key_for_account_balance p.identity id s)
            (value p st (key_for_account_balance p.identity id s)))
        ≡ (if s == symbol
            then (if is_in id d
                then get_balance p id s st - share id d
                else amount_or_zero (value p st (key_for_account_balance p.identity id s)))
            else amount_or_zero (value p st (key_for_account_balance p.identity id s)))
  unfolding burnt_entries
  batch_get-burnt_entries symbol s [] id v st =
      unfold key_for_account_balance key_for_symbol in ground arith
  batch_get-burnt_entries symbol s ((j, n) ∷ d) id v st = ground (
    arith,
    batch_get-burnt_entries symbol s d id v st,
    key_for_account_balance_eq p.identity l.is_identity j id symbol s,
    ==_iff j id,
    ==_iff s symbol,
  )

module _ {S : Type 0} (p : Platform S) (l : IsPlatform p) (symbol : Symbol) (st : LedgerStorage S)
    (symbols : List Symbol) (found : get_symbols p st ≡ (ok symbols, st))
    (listed : contains symbols symbol ≡ true) (info : TokenInfo × TokenExtendedInfo)
    (d : Distribution) (known : info_token p symbol none st ≡ (ok info, st)) where
  share_absent :
      (d : Distribution) (id : Address)
      → IsBurnable p symbol st d
      → p.is_anonymous id || not (is_in id d) ≡ true
      → is_in id d ≡ false
  share_absent [] id m a = refl
  share_absent ((j, n) ∷ d) id m a = ground (arith, share_absent d id m.3, ==_iff j id)

  share-absent : (id : Address) (d : Distribution) → is_in id d ≡ false → share id d ≡ 0
  share-absent id [] h = refl
  share-absent id ((j, n) ∷ d) h = ground (arith, share-absent id d)

  -- For a token that the ledger lists and whose record can be read: burning from named addresses
  -- that hold the amounts, which are positive, with a supply that covers the whole and the batch's
  -- keys in ascending order, succeeds; each address loses its share of that token, and every other
  -- balance stays.
  pub burn_token_balances :
      IsBurnable p symbol st d
      → total_of d ≤ info.0.supply.circulating
      → total_of d ≤ info.0.supply.total
      → is_sorted (burn_batch p symbol info.0 d st) ≡ true
      → (id : Address) (s : Symbol)
      → let after = burn_token p symbol d st in
        (after.0 ≡ ok tt)
        × (get_balance p id s after.1
            ≡ get_balance p id s st - (if s == symbol then share id d else 0))
  unfolding burn_batch get_balance
  burn_token_balances m circulating total sorted id s =
      let v = token_info (
        with_supply info.0 (info.0.supply.circulating - total_of d)
          (info.0.supply.total - total_of d)) in
      ground (
        arith,
        burn_token_lem p l symbol st symbols found listed info d known m circulating total,
        value-committed p l (written p (burn_batch p symbol info.0 d st) st)
            (key_for_account_balance p.identity id s),
        value-written p l (burn_batch p symbol info.0 d st) st
            (key_for_account_balance p.identity id s) sorted,
        batch_get-burnt_entries p l symbol s d id v st,
        share_absent d id m,
        share-absent id d,
      )

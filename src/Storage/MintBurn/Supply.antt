-- ===== src/Storage/MintBurn/Supply.antt =====
-- The supply in a token's record after a mint or a burn.
use many_framework.Prelude.{
  ◌+◌, ◌-◌, ◌≤◌, ◌≡◌, refl, true, false, none, some, Option, List, [], ◌∷◌, ◌++◌, Bytes,
  bytes_eq_refl, arith,
}
use many_framework.Types.{
  Symbol, Distribution, TokenInfo, TokenExtendedInfo, Value, token_info, put, Batch, ok,
}
use many_framework.Platform.{Platform, IsPlatform, batch_get, is_sorted}
use many_framework.Storage.State.{LedgerStorage}
use many_framework.Storage.Keys.{key_for_symbol, key_for_account_balance}
use many_framework.Storage.Basic.{contains, get_symbols}
use many_framework.Storage.Basic.Laws.{written, committed, value, value-written, value-committed}
use many_framework.Storage.Tokens.{info_token, total_of}
use many_framework.Storage.MintBurn.{exceeds, with_supply, mint_token, burn_token}
use many_framework.Storage.MintBurn.Minting.{IsMintable, minted_entries, mint_batch, mint_token_lem}
use many_framework.Storage.MintBurn.Burning.{IsBurnable, burnt_entries, burn_batch, burn_token_lem}

module _ {S : Type 0} (p : Platform S) where
  batch_get-minted_symbol :
      (symbol t : Symbol) (d : Distribution) (b : Batch) (st : LedgerStorage S) (old : Option Value)
      → batch_get (minted_entries p symbol d st ++ b) (key_for_symbol p.identity t) old
        ≡ batch_get b (key_for_symbol p.identity t) old
  unfolding minted_entries key_for_symbol key_for_account_balance
  batch_get-minted_symbol symbol t [] b st old = refl
  batch_get-minted_symbol symbol t ((id, n) ∷ d) b st old =
      batch_get-minted_symbol symbol t d b st old

  batch_get-burnt_symbol :
      (symbol t : Symbol) (d : Distribution) (b : Batch) (st : LedgerStorage S) (old : Option Value)
      → batch_get (burnt_entries p symbol d st ++ b) (key_for_symbol p.identity t) old
        ≡ batch_get b (key_for_symbol p.identity t) old
  unfolding burnt_entries key_for_symbol key_for_account_balance
  batch_get-burnt_symbol symbol t [] b st old = refl
  batch_get-burnt_symbol symbol t ((id, n) ∷ d) b st old =
      batch_get-burnt_symbol symbol t d b st old

module _ {S : Type 0} (p : Platform S) (l : IsPlatform p) where
  value-applied :
      (b : Batch) (st : LedgerStorage S) (k : Bytes)
      → is_sorted b ≡ true
      → value p (committed p (written p b st)) k ≡ batch_get b k (value p st k)
  value-applied b st k h =
      ground (arith, value-committed p l (written p b st) k, value-written p l b st k h)

module _ {S : Type 0} (p : Platform S) (l : IsPlatform p) (symbol : Symbol) (st : LedgerStorage S)
    (symbols : List Symbol) (found : get_symbols p st ≡ (ok symbols, st))
    (listed : contains symbols symbol ≡ true) (info : TokenInfo × TokenExtendedInfo)
    (d : Distribution) (known : info_token p symbol none st ≡ (ok info, st)) where
  -- For a token that the ledger lists and whose record can be read: after minting to named
  -- addresses, positive amounts, within the maximum, with the batch's keys in ascending order, the
  -- token's record counts the whole amount as circulating and in total, and is otherwise as it was.
  pub mint_token_supply :
      IsMintable p d
      → exceeds info.0.supply.maximum (info.0.supply.circulating + total_of d) ≡ false
      → is_sorted (mint_batch p symbol info.0 d st) ≡ true
      → value p (mint_token p symbol d st).1 (key_for_symbol p.identity symbol)
        ≡ some (
            token_info (
              with_supply info.0
                (info.0.supply.circulating + total_of d)
                (info.0.supply.total + total_of d)))
  unfolding mint_batch
  mint_token_supply m max sorted =
      let k = key_for_symbol p.identity symbol in
      let b = mint_batch p symbol info.0 d st in
      ground (
        arith,
        mint_token_lem p l symbol st symbols found listed info d known m max,
        value-applied p l b st k sorted,
        batch_get-minted_symbol p symbol symbol d
            ((
              k,
              put (
                  token_info (
                    with_supply info.0 (info.0.supply.circulating + total_of d)
                      (info.0.supply.total + total_of d))),
            )
              ∷ [])
            st (value p st k),
        bytes_eq_refl k,
      )

  -- For a token that the ledger lists and whose record can be read: after burning from named
  -- addresses that hold the amounts, which are positive, with a supply that covers the whole and the
  -- batch's keys in ascending order, the token's record counts the whole amount as neither
  -- circulating nor in total, and is otherwise as it was.
  pub burn_token_supply :
      IsBurnable p symbol st d
      → total_of d ≤ info.0.supply.circulating
      → total_of d ≤ info.0.supply.total
      → is_sorted (burn_batch p symbol info.0 d st) ≡ true
      → value p (burn_token p symbol d st).1 (key_for_symbol p.identity symbol)
        ≡ some (
            token_info (
              with_supply info.0
                (info.0.supply.circulating - total_of d)
                (info.0.supply.total - total_of d)))
  unfolding burn_batch
  burn_token_supply m circulating total sorted =
      let k = key_for_symbol p.identity symbol in
      let b = burn_batch p symbol info.0 d st in
      ground (
        arith,
        burn_token_lem p l symbol st symbols found listed info d known m circulating total,
        value-applied p l b st k sorted,
        batch_get-burnt_symbol p symbol symbol d
            ((
              k,
              put (
                  token_info (
                    with_supply info.0 (info.0.supply.circulating - total_of d)
                      (info.0.supply.total - total_of d))),
            )
              ∷ [])
            st (value p st k),
        bytes_eq_refl k,
      )

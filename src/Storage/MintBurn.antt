-- ===== src/Storage/MintBurn.antt =====
-- Minting and burning: src/many-ledger/src/storage/ledger_mintburn.rs. The batch is in the order
-- of the distribution, and the store refuses one whose keys do not ascend.
pub mod Minting
pub mod Supply
pub mod Burning
use many_framework.Prelude.{
  ⊤, ℕ, ◌+◌, ◌-◌, Bool, true, false, Option, none, some, List, [], ◌∷◌, ◌++◌, ◌==◌, ltb,
  if◌then◌else◌,
}
use many_framework.Types.{
  Address, Symbol, TokenAmount, Distribution, TokenInfo, TokenInfoSupply, amount, token_info, put,
  Batch, ok, err, ManyError, unable_to_distribute_zero, over_maximum_supply, missing_funds, panic,
}
use many_framework.Platform.{Platform}
use many_framework.Storage.State.{
  LedgerStorage, Action, pure, raise, gets, lift, or_raise, raise_if, ◌>>=◌, ◌>>◌,
}
use many_framework.Storage.Keys.{key_for_account_balance, key_for_symbol}
use many_framework.Storage.Basic.{apply, maybe_commit}
use many_framework.Storage.Balances.{get_multiple_balances, map_get}
use many_framework.Storage.Tokens.{info_token}

abbrev pub exceeds : Option TokenAmount → TokenAmount → Bool
exceeds none n = false
exceeds (some m) n = ltb m n

-- The maximum that an error reports.
abbrev pub maximum_or_zero : Option TokenAmount → TokenAmount
maximum_or_zero none = 0
maximum_or_zero (some m) = m

-- `map_or(amount, |b| b + amount)`
abbrev pub plus_found : Option TokenAmount → TokenAmount → TokenAmount
plus_found none n = n
plus_found (some b) n = b + n

abbrev pub with_supply : TokenInfo → TokenAmount → TokenAmount → TokenInfo
with_supply info circulating total = record info {
  supply = record info.supply { circulating = circulating; total = total };
}

module _ {S : Type 0} (p : Platform S) where
  unfoldable pub get_token_supply : Symbol → Action S TokenInfoSupply
  get_token_supply symbol = do found ← info_token p symbol none; pure found.0.supply

  -- The loop of `mint_token`: from the amount so far, the whole amount and the entries to write.
  unfoldable pub mint_entries :
      Symbol → TokenInfoSupply → Distribution → TokenAmount → Action S (TokenAmount × Batch)
  mint_entries symbol supply [] circulating = pure (circulating, [])
  mint_entries symbol supply ((id, n) ∷ d) circulating =
      let rest = mint_entries symbol supply d (circulating + n) in
      do
        raise_if (n == 0) (unable_to_distribute_zero id)
        raise_if (exceeds supply.maximum (supply.circulating + (circulating + n)))
            (over_maximum_supply symbol (circulating + n) (maximum_or_zero supply.maximum))
        balances ← get_multiple_balances p id (symbol ∷ [])
        let new_balance = plus_found (map_get symbol balances) n
        result ← rest
        pure (
          result.0,
          (key_for_account_balance p.identity id symbol, put (amount new_balance)) ∷ result.1,
        )

  unfoldable pub mint_token : Symbol → Distribution → Action S ⊤
  mint_token symbol distribution = do
    current_supply ← get_token_supply symbol
    result ← mint_entries symbol current_supply distribution 0
    found ← info_token p symbol none
    let info =
        with_supply found.0 (found.0.supply.circulating + result.0)
          (found.0.supply.total + result.0)
    apply p (result.1 ++ (key_for_symbol p.identity symbol, put (token_info info)) ∷ [])
    maybe_commit p

  -- The balance that the burn is taken from, or the error that it is missing.
  abbrev pub funds_to_burn : Symbol → TokenAmount → Option TokenAmount → Action S TokenAmount
  funds_to_burn symbol n none = raise (missing_funds symbol n 0)
  funds_to_burn symbol n (some x) = if ltb x n then raise (missing_funds symbol n x) else pure x

  -- The loop of `burn_token`.
  unfoldable pub burn_entries : Symbol → Distribution → TokenAmount → Action S (TokenAmount × Batch)
  burn_entries symbol [] circulating = pure (circulating, [])
  burn_entries symbol ((id, n) ∷ d) circulating =
      let rest = burn_entries symbol d (circulating + n) in
      do
        raise_if (n == 0) (unable_to_distribute_zero id)
        balances ← get_multiple_balances p id (symbol ∷ [])
        balance_amount ← funds_to_burn symbol n (map_get symbol balances)
        result ← rest
        pure (
          result.0,
          (key_for_account_balance p.identity id symbol, put (amount (balance_amount - n)))
              ∷ result.1,
        )

  -- The subtraction of token amounts panics below zero.
  unfoldable pub burn_token : Symbol → Distribution → Action S ⊤
  burn_token symbol distribution = do
    result ← burn_entries symbol distribution 0
    found ← info_token p symbol none
    raise_if (ltb found.0.supply.circulating result.0) panic
    raise_if (ltb found.0.supply.total result.0) panic
    let info =
        with_supply found.0 (found.0.supply.circulating - result.0)
          (found.0.supply.total - result.0)
    apply p (result.1 ++ (key_for_symbol p.identity symbol, put (token_info info)) ∷ [])
    maybe_commit p

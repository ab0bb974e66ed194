-- ===== src/Module/Tokens.antt =====
-- The handlers of `tokens.mint` and `tokens.burn`: src/many-ledger/src/module/ledger_mintburn.rs.
use many_framework.Prelude.{⊤, Bool, true, Option, not, unwrap_or}
use many_framework.Types.{
  Address, Symbol, Distribution, Memo, EventInfo, ok, err, invalid_method_name, symbol_not_found,
  partial_burn_disabled,
}
use many_framework.Platform.{Platform, token_migration}
use many_framework.Storage.State.{Action, pure, gets, lift, raise_if, ◌>>=◌, ◌>>◌}
use many_framework.Storage.Keys.{token_identity_root, identity_root}
use many_framework.Storage.Basic.{contains, get_identity, get_symbols}
use many_framework.Storage.Event.{log_event}
use many_framework.Storage.MintBurn.{mint_token, burn_token}
use many_framework.Storage.Tokens.{verify_tokens_sender}

module _ {S : Type 0} (p : Platform S) where
  unfoldable pub check_symbol_exists : Symbol → Action S ⊤
  check_symbol_exists symbol = do
    symbols ← get_symbols p
    raise_if (not (contains symbols symbol)) (symbol_not_found symbol)

  -- The token identity, or else the server's.
  unfoldable pub token_identity : Action S Address
  token_identity st = elim (get_identity p token_identity_root st).0 [
    | ok id ↦ (ok id, st)
    | err e ↦ get_identity p identity_root st
  ]

  -- The checks that `mint` and `burn` start with.
  unfoldable pub check_mint_burn : Address → Symbol → Action S ⊤
  check_mint_burn sender symbol = do
    active ← gets (λ st. st.migrations.is_active token_migration)
    raise_if (not active) invalid_method_name
    id ← token_identity
    lift (verify_tokens_sender sender id)
    check_symbol_exists symbol

  unfoldable pub mint : Address → Symbol → Distribution → Option Memo → Action S ⊤
  mint sender symbol distribution memo = do
    check_mint_burn sender symbol
    mint_token p symbol distribution
    log_event p (EventInfo.token_mint symbol distribution memo)

  unfoldable pub burn :
      Address → Symbol → Distribution → Option Memo → Option Bool → Action S Distribution
  burn sender symbol distribution memo error_on_under_burn = do
    check_mint_burn sender symbol
    raise_if (not (unwrap_or error_on_under_burn true)) partial_burn_disabled
    burn_token p symbol distribution
    log_event p (EventInfo.token_burn symbol distribution memo)
    pure distribution

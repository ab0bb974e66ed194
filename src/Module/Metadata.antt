-- ===== src/Module/Metadata.antt =====
-- The handlers that create, show and change tokens: src/many-ledger/src/module/ledger_tokens.rs.
use many_framework.Prelude.{⊤, none, some, Option, List, [], ◌∷◌, not}
use many_framework.Types.{
  Address, Symbol, Role, can_tokens_create, can_tokens_update, can_tokens_add_extended_info,
  can_tokens_remove_extended_info, Either, left, TokenInfo, TokenExtendedInfo, ExtendedInfoKey,
  Memo, TokenCreateArgs, TokenUpdateArgs, invalid_method_name, unknown, token_is_immutable,
  ticker_already_exists, symbol_was_not_found,
}
use many_framework.Platform.{Platform, token_migration}
use many_framework.Storage.State.{Action, pure, raise, gets, lift, raise_if, ◌>>=◌, ◌>>◌}
use many_framework.Storage.Basic.{contains, get_symbols, get_symbols_and_tickers}
use many_framework.Storage.Accounts.{verify_acl}
use many_framework.Storage.Tokens as Storage
use many_framework.Storage.Tokens.{verify_tokens_sender, has_ticker, get_owner}
use many_framework.Module.Tokens.{token_identity}

module _ {S : Type 0} (p : Platform S) where
  -- The guard that each handler starts with.
  unfoldable pub check_migration : Action S ⊤
  check_migration = do
    active ← gets (λ st. st.migrations.is_active token_migration)
    raise_if (not active) invalid_method_name

  abbrev verify_new_owner : Address → Option (Either Address ⊤) → Action S ⊤
  verify_new_owner sender (some (left id)) =
      verify_acl p sender id (can_tokens_create ∷ []) p.token_account_ledger_id
  verify_new_owner sender _ = pure tt

  unfoldable pub create : Address → TokenCreateArgs → Action S TokenInfo
  create sender args = do
    check_migration
    id ← token_identity p
    lift (verify_tokens_sender sender id)
    verify_new_owner sender args.owner
    tickers ← get_symbols_and_tickers p
    raise_if (has_ticker args.summary.ticker tickers) (unknown ticker_already_exists)
    Storage.create_token p sender args

  unfoldable pub check_listed : Symbol → Action S ⊤
  check_listed symbol = do
    symbols ← get_symbols p
    raise_if (not (contains symbols symbol)) (unknown symbol_was_not_found)

  unfoldable pub info :
      Symbol → Option (List ExtendedInfoKey) → Action S (TokenInfo × TokenExtendedInfo)
  info symbol indices = do check_migration; check_listed symbol; Storage.info_token p symbol indices

  -- That the sender may change a token in the name of its owner.
  unfoldable pub verify_owner : Address → Symbol → Role → Action S ⊤
  verify_owner sender symbol role = get_owner p symbol >>= λ found. elim found [
    | none ↦ raise (unknown token_is_immutable)
    | some id ↦ verify_acl p sender id (role ∷ []) p.token_account_ledger_id
  ]

  unfoldable pub update : Address → TokenUpdateArgs → Action S ⊤
  update sender args = do
    check_migration
    verify_owner sender args.symbol can_tokens_update
    check_listed args.symbol
    Storage.update_token p sender args

  unfoldable pub add_extended_info : Address → Symbol → TokenExtendedInfo → Option Memo → Action S ⊤
  add_extended_info sender symbol new memo = do
    check_migration
    verify_owner sender symbol can_tokens_add_extended_info
    Storage.add_extended_info p symbol new memo

  unfoldable pub remove_extended_info :
      Address → Symbol → List ExtendedInfoKey → Option Memo → Action S ⊤
  remove_extended_info sender symbol keys memo = do
    check_migration
    verify_owner sender symbol can_tokens_remove_extended_info
    Storage.remove_extended_info p symbol keys memo

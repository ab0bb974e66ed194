-- ===== src/Migration/Tokens.antt =====
-- Subresources get a counter each, and the token its metadata:
-- src/many-ledger/src/migration/tokens.rs. A parameter of the migration is missing, or is parsed to
-- a value or an error.
pub mod Laws
use many_framework.Prelude.{
  ⊤, ℕ, Bool, true, ◌&&◌, not, is_some, Option, none, some, [], ◌∷◌, Bytes,
}
use many_framework.Types.{
  Address, Symbol, TokenAmount, TokenInfo, put, delete, Batch, address, be_u32, token_info,
  ext_info, Result, ok, err, unknown, missing_parameter, symbol_not_in_list, storage_key_not_found,
  panic,
}
use many_framework.Platform.{Platform}
use many_framework.Storage.State.{Method, pure, raise, lift, gets, or_raise, raise_if, ◌>>=◌, ◌>>◌}
use many_framework.Storage.Keys.{
  identity_root, symbols_root, token_identity_root, account_identity_root,
  account_subresource_id_root, key_for_subresource_counter, key_for_symbol, key_for_ext_info,
}
use many_framework.Storage.Basic.{counter_or_zero, as_address, as_tickers}
use many_framework.Storage.Balances.{map_get}
use many_framework.Migration.Store.{apply_to}

abbrev pub Parameter : Type 0 → Type 0
Parameter A = Option (Result A)

-- The extra parameters that the migration reads.
pub record Extra : Type 0 where
  pub token_identity : Parameter Address
  pub token_next_subresource : Parameter ℕ
  pub symbol : Parameter Symbol
  pub symbol_name : Parameter Bytes
  pub symbol_decimals : Parameter ℕ
  pub symbol_total : Parameter TokenAmount
  pub symbol_circulating : Parameter TokenAmount
  pub symbol_maximum : Parameter (Option TokenAmount)
  pub symbol_owner : Parameter (Option Address)

abbrev is_complete : Extra → Bool
is_complete extra =
    is_some extra.token_identity
    && is_some extra.token_next_subresource
    && is_some extra.symbol
    && is_some extra.symbol_name
    && is_some extra.symbol_decimals
    && is_some extra.symbol_total
    && is_some extra.symbol_circulating
    && is_some extra.symbol_maximum
    && is_some extra.symbol_owner

-- Indexing the map panics where the key is missing.
abbrev parsed : {A : Type 0} → Parameter A → Result A
parsed none = err panic
parsed (some r) = r

module _ {S : Type 0} (p : Platform S) where
  unfoldable pub migrate_account_identity : Method S ⊤
  migrate_account_identity = do
    root_identity ← or_raise (← gets (λ s. p.get s identity_root)) storage_key_not_found
    subresource_counter ← gets (λ s. counter_or_zero (p.get s account_subresource_id_root))
    root_address ← lift (as_address root_identity)
    apply_to p (
        (account_subresource_id_root, delete)
        ∷ (account_identity_root, put root_identity)
        ∷ (
          key_for_subresource_counter p.identity root_address true,
          put (be_u32 subresource_counter),
        )
        ∷ [])

  -- The batch of `migrate_token`.
  abbrev token_batch : Address → ℕ → Symbol → TokenInfo → Batch
  token_batch token_identity token_next_subresource symbol info =
      (key_for_ext_info p.identity symbol, put (ext_info p.default_ext_info))
      ∷ (
        key_for_subresource_counter p.identity token_identity true,
        put (be_u32 token_next_subresource),
      )
      ∷ (key_for_symbol p.identity symbol, put (token_info info))
      ∷ (token_identity_root, put (address token_identity))
      ∷ []

  unfoldable pub migrate_token : Extra → Method S ⊤
  migrate_token extra = do
    raise_if (not (is_complete extra)) (unknown missing_parameter)
    token_identity ← lift (parsed extra.token_identity)
    token_next_subresource ← lift (parsed extra.token_next_subresource)
    symbol ← lift (parsed extra.symbol)
    symbol_and_ticker_enc ← or_raise (← gets (λ s. p.get s symbols_root)) storage_key_not_found
    symbol_and_ticker ← lift (as_tickers symbol_and_ticker_enc)
    ticker ← or_raise (map_get symbol symbol_and_ticker) (unknown symbol_not_in_list)
    name ← lift (parsed extra.symbol_name)
    decimals ← lift (parsed extra.symbol_decimals)
    total ← lift (parsed extra.symbol_total)
    circulating ← lift (parsed extra.symbol_circulating)
    maximum ← lift (parsed extra.symbol_maximum)
    owner ← lift (parsed extra.symbol_owner)
    apply_to p (
        token_batch token_identity token_next_subresource symbol (record {
          symbol = symbol;
          summary = record { name = name; ticker = ticker; decimals = decimals };
          supply = record { total = total; circulating = circulating; maximum = maximum };
          owner = owner;
        }))

  -- `initialize`
  unfoldable pub initialize_tokens : Extra → Method S ⊤
  initialize_tokens extra = do migrate_account_identity; migrate_token extra

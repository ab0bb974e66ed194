-- ===== src/Storage/Tokens/Metadata.antt =====
-- Token metadata: reading it, and creating a token.
use many_framework.Prelude.{
  ⊤, ℕ, ◌+◌, Option, none, some, List, [], ◌∷◌, ◌++◌, Bytes, ◌==◌, ltb, bytes_lt, if◌then◌else◌,
  unwrap_or,
}
use many_framework.Types.{
  Address, Symbol, TokenAmount, Either, left, right, TokenInfo, TokenExtendedInfo, ExtendedInfoKey,
  TokenCreateArgs, Distribution, Value, amount, token_info, ext_info, tickers, Op, put, Batch,
  EventInfo, Result, ok, err, deserialization_error, token_info_not_found, ext_info_not_found,
  invalid_sender,
}
use many_framework.Platform.{Platform}
use many_framework.Storage.State.{Action, pure, lift, or_raise, ◌>>=◌, ◌>>◌}
use many_framework.Storage.Keys.{
  symbols_root, token_identity_root, key_for_account_balance, key_for_symbol, key_for_ext_info,
}
use many_framework.Storage.Basic.{
  get, apply, maybe_commit, get_symbols_and_tickers, get_next_subresource,
}
use many_framework.Storage.Event.{log_event}

abbrev pub as_token_info : Value → Result TokenInfo
as_token_info (token_info i) = ok i
as_token_info _ = err deserialization_error

abbrev pub as_ext_info : Value → Result TokenExtendedInfo
as_ext_info (ext_info i) = ok i
as_ext_info _ = err deserialization_error

unfoldable pub verify_tokens_sender : Address → Address → Result ⊤
verify_tokens_sender sender token_identity =
    if sender == token_identity then ok tt else err invalid_sender

-- `BTreeMap::insert`, by ascending key.
unfoldable pub map_insert {ℓ} : {A : Type ℓ} → ℕ → A → List (ℕ × A) → List (ℕ × A)
map_insert k v [] = (k, v) ∷ []
map_insert k v ((j, w) ∷ m) =
    let rest = map_insert k v m in
    if j == k then (k, v) ∷ m else (if ltb k j then (k, v) ∷ (j, w) ∷ m else (j, w) ∷ rest)

-- `batch.sort_by` on the keys: a stable sort.
unfoldable pub insert_entry : Bytes → Op → Batch → Batch
insert_entry k op [] = (k, op) ∷ []
insert_entry k op ((j, o) ∷ b) =
    let rest = insert_entry k op b in if bytes_lt j k then (j, o) ∷ rest else (k, op) ∷ (j, o) ∷ b

unfoldable pub sort_batch : Batch → Batch
sort_batch [] = []
sort_batch ((k, op) ∷ b) = insert_entry k op (sort_batch b)

abbrev pub total_of : Distribution → TokenAmount
total_of [] = 0
total_of ((id, n) ∷ d) = n + total_of d

-- `owner.map_or(Some(*sender), Either::left)`
abbrev pub owner_or_sender : Address → Option (Either Address ⊤) → Option Address
owner_or_sender sender none = some sender
owner_or_sender sender (some (left a)) = some a
owner_or_sender sender (some (right _)) = none

abbrev pub new_token_info : Address → TokenCreateArgs → Symbol → TokenInfo
new_token_info sender args symbol =
    let total_supply = total_of (unwrap_or args.initial_distribution []) in
    record {
      symbol = symbol;
      summary = args.summary;
      supply = record {
        total = total_supply;
        circulating = total_supply;
        maximum = args.maximum_supply;
      };
      owner = owner_or_sender sender args.owner;
    }

module _ {S : Type 0} (p : Platform S) where
  unfoldable pub get_owner : Symbol → Action S (Option Address)
  get_owner symbol = do
    v ← or_raise (← get p (key_for_symbol p.identity symbol)) (token_info_not_found symbol)
    info ← lift (as_token_info v)
    pure info.owner

  unfoldable pub update_symbols : Symbol → Bytes → Action S ⊤
  update_symbols symbol ticker = do
    symbols ← get_symbols_and_tickers p
    apply p ((symbols_root, put (tickers (map_insert symbol ticker symbols))) ∷ [])

  unfoldable pub distribution_batch : Symbol → Distribution → Batch
  distribution_batch symbol [] = []
  distribution_batch symbol ((id, n) ∷ d) =
      (key_for_account_balance p.identity id symbol, put (amount n)) ∷ distribution_batch symbol d

  unfoldable pub create_token : Address → TokenCreateArgs → Action S TokenInfo
  create_token sender args = do
    symbol ← get_next_subresource p token_identity_root
    update_symbols symbol args.summary.ticker
    let info = new_token_info sender args symbol
    let batch =
        distribution_batch symbol (unwrap_or args.initial_distribution [])
        ++ (key_for_symbol p.identity symbol, put (token_info info))
          ∷ (
            key_for_ext_info p.identity symbol,
            put (ext_info (unwrap_or args.extended_info p.default_ext_info)),
          )
          ∷ []
    log_event p (
        EventInfo.token_create args.summary symbol args.owner args.initial_distribution
          args.maximum_supply args.extended_info args.memo)
    apply p (sort_batch batch)
    maybe_commit p
    pure info

  unfoldable pub info_token :
      Symbol → Option (List ExtendedInfoKey) → Action S (TokenInfo × TokenExtendedInfo)
  info_token symbol indices = do
    token_info_enc ←
        or_raise (← get p (key_for_symbol p.identity symbol)) (token_info_not_found symbol)
    ext_info_enc ←
        or_raise (← get p (key_for_ext_info p.identity symbol)) (ext_info_not_found symbol)
    stored ← lift (as_ext_info ext_info_enc)
    kept ← lift (elim indices [ none ↦ ok stored | some ks ↦ p.retain stored ks ])
    info ← lift (as_token_info token_info_enc)
    pure (info, kept)

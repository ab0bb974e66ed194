-- ===== src/Storage/Tokens/Changes.antt =====
-- Updating a token and its extended information.
use many_framework.Prelude.{
  ⊤, Bool, true, false, Option, none, some, List, [], ◌∷◌, ◌++◌, Bytes, any, bytes_eq, unwrap_or,
}
use many_framework.Types.{
  Address, Symbol, Either, left, right, TokenInfo, TokenExtendedInfo, ExtendedInfoKey, memo_key,
  visual_logo_key, TokenUpdateArgs, Memo, token_info, ext_info, put, EventInfo, Result, ok, err,
  ticker_exists, ext_info_not_found, unknown, symbol_not_in_storage, panic, Tickers,
}
use many_framework.Platform.{Platform}
use many_framework.Storage.State.{Action, pure, lift, or_raise, raise_if, ◌>>=◌, ◌>>◌}
use many_framework.Storage.Keys.{key_for_symbol, key_for_ext_info}
use many_framework.Storage.Basic.{get, apply, maybe_commit, get_symbols_and_tickers}
use many_framework.Storage.Event.{log_event}
use many_framework.Storage.Tokens.Metadata.{as_token_info, as_ext_info, update_symbols}

-- Whether a ticker is in use.
abbrev pub has_ticker : Bytes → Tickers → Bool
has_ticker t m = any (λ e. bytes_eq e.1 t) m

abbrev pub or_panic {ℓ} : {A : Type ℓ} → Result A → Result A
or_panic (ok a) = ok a
or_panic (err e) = err panic

abbrev pub new_owner : Option (Either Address ⊤) → Option Address → Option Address
new_owner none old = old
new_owner (some (left a)) old = some a
new_owner (some (right _)) old = none

-- The metadata after an update.
abbrev pub updated_info : TokenUpdateArgs → TokenInfo → TokenInfo
updated_info args info = record info {
  summary = record {
    name = unwrap_or args.name info.summary.name;
    ticker = unwrap_or args.ticker info.summary.ticker;
    decimals = unwrap_or args.decimals info.summary.decimals;
  };
  owner = new_owner args.owner info.owner;
}

module _ {S : Type 0} (p : Platform S) where
  -- The part of `update_token` on the ticker.
  unfoldable pub update_ticker : Symbol → Option Bytes → Action S ⊤
  update_ticker symbol none = pure tt
  update_ticker symbol (some ticker) = do
    symbols ← get_symbols_and_tickers p
    raise_if (has_ticker ticker symbols) (ticker_exists ticker)
    update_symbols p symbol ticker

  unfoldable pub update_token : Address → TokenUpdateArgs → Action S ⊤
  update_token sender args = do
    enc ← or_raise (← get p (key_for_symbol p.identity args.symbol)) (unknown symbol_not_in_storage)
    info ← lift (or_panic (as_token_info enc))
    update_ticker args.symbol args.ticker
    apply p
        ((key_for_symbol p.identity args.symbol, put (token_info (updated_info args info))) ∷ [])
    log_event p (EventInfo.token_update args)
    maybe_commit p

  -- The memo and the logos that are given, with their indices.
  unfoldable pub extend_info :
      TokenExtendedInfo → TokenExtendedInfo → Result (TokenExtendedInfo × List ExtendedInfoKey)
  extend_info given old =
      let with_logo = λ (e : TokenExtendedInfo) (ks : List ExtendedInfoKey).
        elim given.visual_logo as (λ o. Result (TokenExtendedInfo × List ExtendedInfoKey)) [
          | none ↦ ok (e, ks)
          | some v ↦ elim (p.with_visual_logo e v) [
            | ok e' ↦ ok (e', ks ++ visual_logo_key ∷ [])
            | err x ↦ err x
          ]
        ] in
      elim given.memo [
        | none ↦ with_logo old []
        | some m ↦ elim (p.with_memo old m) [ ok e' ↦ with_logo e' (memo_key ∷ []) | err x ↦ err x ]
      ]

  unfoldable pub add_extended_info : Symbol → TokenExtendedInfo → Option Memo → Action S ⊤
  add_extended_info symbol given memo = do
    found ← get p (key_for_ext_info p.identity symbol)
    old ← lift (elim found [ none ↦ ok p.new_ext_info | some v ↦ as_ext_info v ])
    result ← lift (extend_info given old)
    apply p ((key_for_ext_info p.identity symbol, put (ext_info result.0)) ∷ [])
    log_event p (EventInfo.token_add_extended_info symbol result.1 memo)
    maybe_commit p

  -- The loop of `remove_extended_info`.
  unfoldable pub remove_indices :
      List ExtendedInfoKey → TokenExtendedInfo → Result TokenExtendedInfo
  remove_indices [] info = ok info
  remove_indices (k ∷ ks) info =
      let rest = λ (i : TokenExtendedInfo). remove_indices ks i in
      elim (p.contains_index info k) [
        | err e ↦ err e
        | ok false ↦ rest info
        | ok true ↦ elim (p.remove_index info k) [ err e ↦ err e | ok i ↦ rest i ]
      ]

  unfoldable pub remove_extended_info : Symbol → List ExtendedInfoKey → Option Memo → Action S ⊤
  remove_extended_info symbol indices memo = do
    v ← or_raise (← get p (key_for_ext_info p.identity symbol)) (ext_info_not_found symbol)
    old ← lift (as_ext_info v)
    info ← lift (remove_indices indices old)
    apply p ((key_for_ext_info p.identity symbol, put (ext_info info)) ∷ [])
    log_event p (EventInfo.token_remove_extended_info symbol indices memo)
    maybe_commit p

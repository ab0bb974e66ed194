-- ===== src/Module/Queries.antt =====
-- The handlers that only read: src/many-ledger/src/module/ledger.rs and module/data.rs, with
-- `get_token_info_summary` of storage/ledger_tokens.rs and `data_info` of storage/data.rs.
use many_framework.Prelude.{
  ◌||◌, Bool, true, false, Option, none, some, List, [], ◌∷◌, Bytes, map, drop, length, bytes_eq,
  if◌then◌else◌, unwrap_or,
}
use many_framework.Types.{
  Address, Symbol, TokenAmount, TokenInfoSummary, Tickers, Value, token_info, data_infos,
  Attributes, DataIndex, DataInfos, Result, ok, err, panic, deserialization_error,
}
use many_framework.Platform.{Platform, token_migration}
use many_framework.Storage.State.{Action, pure, gets, ◌>>=◌}
use many_framework.Storage.Keys.{symbols_root_dash}
use many_framework.Storage.Basic.{get_symbols_and_tickers, hash}
use many_framework.Storage.Balances.{get_multiple_balances}
use many_framework.Storage.Data.{data_attributes}
use many_framework.Storage.Iterator.{SortOrder, all_symbols}
use many_framework.Storage.Tokens.{map_insert}
use many_framework.Migration.Data.{data_info_key}

pub record InfoReturns : Type 0 where
  pub symbols : List Symbol
  pub hash : Bytes
  pub local_names : Tickers
  pub tokens : List (Symbol × TokenInfoSummary)

abbrev summary_of : Value → Result TokenInfoSummary
summary_of (token_info i) = ok i.summary
summary_of _ = err deserialization_error

abbrev has_index : List DataIndex → DataIndex → Bool
has_index [] i = false
has_index (j ∷ js) i = bytes_eq j i || has_index js i

-- `filter` on the keys of a map.
unfoldable pub keep_indices {ℓ} :
    {A : Type ℓ} → List DataIndex → List (DataIndex × A) → List (DataIndex × A)
keep_indices indices [] = []
keep_indices indices ((i, a) ∷ m) =
    let rest = keep_indices indices m in if has_index indices i then (i, a) ∷ rest else rest

module _ {S : Type 0} (p : Platform S) where
  -- The loop, with the summaries so far.
  unfoldable pub collect_summaries :
      List (Bytes × Value)
      → List (Symbol × TokenInfoSummary)
      → Result (List (Symbol × TokenInfoSummary))
  collect_summaries [] m = ok m
  collect_summaries ((k, v) ∷ items) m = elim (summary_of v) [
    | err e ↦ err e
    | ok summary ↦ elim (p.address_from_text (drop (length symbols_root_dash) k)) [
      | none ↦ err deserialization_error
      | some symbol ↦ collect_summaries items (map_insert symbol summary m)
    ]
  ]

  unfoldable pub get_token_info_summary : Action S (List (Symbol × TokenInfoSummary))
  get_token_info_summary st = elim (st.migrations.is_active token_migration) [
    | true ↦ (collect_summaries (all_symbols p SortOrder.indeterminate st.persistent_store) [], st)
    | false ↦ (ok [], st)
  ]

  -- `info` of the ledger module
  unfoldable pub ledger_info : Action S InfoReturns
  ledger_info = do
    root ← gets (hash p)
    tickers ← get_symbols_and_tickers p
    tokens ← get_token_info_summary
    pure (record {
      symbols = map (λ e. e.0) tickers;
      hash = root;
      local_names = tickers;
      tokens = tokens;
    })

  unfoldable pub balance :
      Address → Option Address → Option (List Symbol) → Action S (List (Symbol × TokenAmount))
  balance sender account symbols =
      get_multiple_balances p (unwrap_or account sender) (unwrap_or symbols [])

  -- `data_info` of the storage
  unfoldable pub stored_data_info : Action S (Option DataInfos)
  stored_data_info st = elim (p.get st.persistent_store data_info_key) [
    | none ↦ (ok none, st)
    | some (data_infos m) ↦ (ok (some m), st)
    | some _ ↦ (err panic, st)
  ]

  -- `info`, `get_info` and `query` of the data module
  unfoldable pub data_indices : Action S (List DataIndex)
  data_indices = do found ← data_attributes p; pure (map (λ e. e.0) (unwrap_or found []))

  unfoldable pub get_data_info : List DataIndex → Action S DataInfos
  get_data_info indices = do
    found ← stored_data_info
    pure (keep_indices indices (unwrap_or found []))

  unfoldable pub query_data : List DataIndex → Action S Attributes
  query_data indices = do
    found ← data_attributes p
    pure (keep_indices indices (unwrap_or found []))

-- ===== src/Storage/Genesis.antt =====
-- A new storage and what the genesis file puts into it: `new`, `build` and `with_migrations` of
-- src/many-ledger/src/storage.rs and storage/migrations.rs, `with_tokens` of
-- storage/ledger_tokens.rs and `with_idstore` of storage/idstore.rs. A `BTreeMap` is a list by
-- ascending key.
pub mod Laws
use many_framework.Prelude.{
  ⊤, ℕ, ◌+◌, Bool, true, false, Option, none, some, List, [], ◌∷◌, ◌++◌, Bytes, is_some,
  if◌then◌else◌, unwrap_or,
}
use many_framework.Types.{
  Address, Symbol, TokenAmount, TokenInfo, Tickers, Value, Batch, put, address, tickers, be_u32,
  be_u64, token_info, ext_info, Result, ok, err, unknown, missing_metadata, missing_total_supply,
  metadata_needed, migrations_failed, storage_apply_failed, panic,
}
use many_framework.Platform.{Platform, Migrations, token_migration}
use many_framework.Storage.State.{
  LedgerStorage, Action, pure, raise, gets, lift, or_raise, ◌>>=◌, ◌>>◌,
}
use many_framework.Storage.Keys.{
  identity_root, symbols_root, token_identity_root, idstore_seed_root, key_for_symbol,
  key_for_ext_info, key_for_subresource_counter,
}
use many_framework.Storage.Basic.{apply, commit_storage, get_identity}
use many_framework.Storage.Balances.{map_get}
use many_framework.Storage.MintBurn.{plus_found}
use many_framework.Storage.Tokens.{map_insert}
use many_framework.Storage.Load.{MigrationOps, configured}

pub record SymbolMeta : Type 0 where
  pub name : Bytes
  pub decimals : ℕ
  pub owner : Option Address
  pub maximum : Option TokenAmount

-- `BTreeMap<Address, BTreeMap<Symbol, TokenAmount>>`
abbrev pub Balances : Type 0
Balances = List (Address × List (Symbol × TokenAmount))

-- `*total_supply.entry(symbol).or_default() += tokens`, for the tokens of one address.
unfoldable pub add_supplies :
    List (Symbol × TokenAmount) → List (Symbol × TokenAmount) → List (Symbol × TokenAmount)
add_supplies [] m = m
add_supplies ((s, n) ∷ tokens) m = add_supplies tokens (map_insert s (plus_found (map_get s m) n) m)

-- `_total_supply`, from the supplies so far
unfoldable pub total_supplies : Balances → List (Symbol × TokenAmount) → List (Symbol × TokenAmount)
total_supplies [] m = m
total_supplies ((id, tokens) ∷ balances) m = total_supplies balances (add_supplies tokens m)

-- `_token_info`
abbrev pub genesis_token_info : Symbol → Bytes → SymbolMeta → TokenAmount → TokenInfo
genesis_token_info symbol ticker meta n = record {
  symbol = symbol;
  summary = record { name = meta.name; ticker = ticker; decimals = meta.decimals };
  supply = record { total = n; circulating = n; maximum = meta.maximum };
  owner = meta.owner;
}

-- The loop over the symbols that checks what is known of each.
unfoldable pub check_symbols :
    Tickers → List (Symbol × SymbolMeta) → List (Symbol × TokenAmount) → Result ⊤
check_symbols [] meta supplies = ok tt
check_symbols ((s, ticker) ∷ symbols) meta supplies =
    let rest = check_symbols symbols meta supplies in
    if is_some (map_get s meta)
    then (if is_some (map_get s supplies) then rest else err (unknown missing_total_supply))
    else err (unknown missing_metadata)

abbrev or_unindexed {ℓ} : {A : Type ℓ} → Option A → Result A
or_unindexed none = err panic
or_unindexed (some a) = ok a

module _ {S : Type 0} (p : Platform S) where
  -- The entries of each token, in turn. Indexing a map where the key is missing panics.
  unfoldable pub token_entries :
      Tickers → List (Symbol × TokenAmount) → List (Symbol × SymbolMeta) → Result Batch
  token_entries symbols supplies [] = ok []
  token_entries symbols supplies ((s, meta) ∷ m) =
      let rest = token_entries symbols supplies m in
      elim (or_unindexed (map_get s supplies)) [
        | err e ↦ err e
        | ok n ↦ elim (or_unindexed (map_get s symbols)) [
          | err e ↦ err e
          | ok ticker ↦ elim rest [
            | err e ↦ err e
            | ok b ↦ ok (
                (key_for_ext_info p.identity s, put (ext_info p.default_ext_info))
                ∷ (
                  key_for_symbol p.identity s,
                  put (token_info (genesis_token_info s ticker meta n)),
                )
                ∷ b)
          ]
        ]
      ]

  -- `with_tokens` once the migration is found active.
  unfoldable pub store_tokens :
      Tickers
      → Option (List (Symbol × SymbolMeta))
      → Option Address
      → Option ℕ
      → Balances
      → Action S ⊤
  store_tokens symbols symbols_meta token_identity token_next_subresource initial_balances = do
    meta ← or_raise symbols_meta (unknown metadata_needed)
    let supplies = total_supplies initial_balances []
    lift (check_symbols symbols meta supplies)
    batch ← lift (token_entries symbols supplies meta)
    apply p batch
    server ← get_identity p identity_root
    let id = unwrap_or token_identity server
    apply p (
        (
          key_for_subresource_counter p.identity id true,
          put (be_u32 (unwrap_or token_next_subresource 0)),
        )
        ∷ (token_identity_root, put (address id))
        ∷ [])
    commit_storage p

  unfoldable pub with_tokens :
      Tickers
      → Option (List (Symbol × SymbolMeta))
      → Option Address
      → Option ℕ
      → Balances
      → Action S ⊤
  with_tokens symbols symbols_meta token_identity token_next_subresource initial_balances st =
      elim (st.migrations.is_active token_migration) [
        | true ↦
            store_tokens symbols symbols_meta token_identity token_next_subresource initial_balances
              st
        | false ↦ (ok tt, st)
      ]

  abbrev seed_entry : Option ℕ → Batch
  seed_entry none = []
  seed_entry (some seed) = (idstore_seed_root, put (be_u64 seed)) ∷ []

  abbrev key_entries : List (Bytes × Value) → Batch
  key_entries [] = []
  key_entries ((k, v) ∷ keys) = (k, put v) ∷ key_entries keys

  -- The keys and values are those that the base64 texts of the genesis file stand for.
  unfoldable pub with_idstore : Option ℕ → Option (List (Bytes × Value)) → Action S ⊤
  with_idstore maybe_seed maybe_keys =
      apply p (seed_entry maybe_seed ++ key_entries (unwrap_or maybe_keys []))

  unfoldable pub build : Action S ⊤
  build = commit_storage p

module _ {S Config : Type 0} (p : Platform S) (ops : MigrationOps Config) where
  abbrev no_migrations : Option Migrations → Result Migrations
  no_migrations none = err (unknown migrations_failed)
  no_migrations (some m) = ok m

  -- `LedgerStorage::new`, on a store that merk opened
  unfoldable pub new_storage : Tickers → S → Address → Bool → Result (LedgerStorage S)
  new_storage symbols persistent_store identity blockchain =
      let batch =
        (identity_root, put (address identity)) ∷ (symbols_root, put (tickers symbols)) ∷ [] in
      elim (p.apply persistent_store batch) [
        | none ↦ err storage_apply_failed
        | some s ↦ elim (no_migrations ops.empty_set) [
          | err e ↦ err e
          | ok m ↦ ok (record {
            persistent_store = p.commit s;
            blockchain = blockchain;
            latest_tid = 0 ∷ [];
            current_time = none;
            current_hash = none;
            migrations = m;
          })
        ]
      ]

  unfoldable pub with_migrations : Option Config → Action S ⊤
  with_migrations config st = elim (no_migrations (configured ops config 0)) [
    | err e ↦ (err e, st)
    | ok m ↦ (ok tt, record st { migrations = m })
  ]

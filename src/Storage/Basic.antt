-- ===== src/Storage/Basic.antt =====
-- Reading and writing the store, and the methods of src/many-ledger/src/storage.rs. `u64` counters
-- wrap as they do in a release build. A `BTreeSet` of symbols is a list of which only the members
-- count.
pub mod Laws
pub mod Subresources
use many_framework.Prelude.{
  ⊤, ℕ, zero, suc, ◌+◌, ◌-◌, ◌%◌, ◌^◌, Bool, true, false, ◌||◌, Option, none, some, List, [], ◌∷◌,
  map, Bytes, length, drop, ltb, ◌==◌, if◌then◌else◌, unwrap_or,
}
use many_framework.Types.{
  Address, Symbol, Timestamp, Result, ok, err, Value, Batch, put, tickers, address, be_u64, be_u32,
  Tickers, storage_apply_failed, storage_key_not_found, deserialization_error,
  subresource_exhausted, invalid_subresource, out_of_fuel,
}
use many_framework.Platform.{Platform, token_migration}
use many_framework.Storage.State.{
  LedgerStorage, Action, pure, raise, gets, lift, or_raise, raise_if, ◌>>=◌, ◌>>◌,
}
use many_framework.Storage.Keys.{
  identity_root, symbols_root, symbols_root_dash, height_root, key_for_subresource_counter,
}

abbrev pub u64_mod : ℕ
u64_mod = 2 ^ 64

abbrev pub u32_mod : ℕ
u32_mod = 2 ^ 32

-- `BTreeSet::contains`
abbrev pub contains : List ℕ → ℕ → Bool
contains [] a = false
contains (x ∷ xs) a = x == a || contains xs a

-- Decoding a value of another kind fails.
abbrev pub as_tickers : Value → Result Tickers
as_tickers (tickers t) = ok t
as_tickers _ = err deserialization_error

abbrev pub as_address : Value → Result Address
as_address (address a) = ok a
as_address _ = err deserialization_error

-- A counter of the wrong width is a panic of `copy_from_slice`; none is stored under these keys.
abbrev pub counter_or_zero : Option Value → ℕ
counter_or_zero (some (be_u64 n)) = n
counter_or_zero (some (be_u32 n)) = n
counter_or_zero _ = 0

module _ {S : Type 0} (p : Platform S) where
  -- `persistent_store.get`
  abbrev pub get : Bytes → Action S (Option Value)
  get k = gets (λ st. p.get st.persistent_store k)

  -- `persistent_store.apply`
  unfoldable pub apply : Batch → Action S ⊤
  apply b st = elim (p.apply st.persistent_store b) [
    | none ↦ (err storage_apply_failed, st)
    | some s ↦ (ok tt, record st { persistent_store = s })
  ]

  unfoldable pub commit_storage : Action S ⊤
  commit_storage st = (ok tt, record st { persistent_store = p.commit st.persistent_store })

  unfoldable pub maybe_commit : Action S ⊤
  maybe_commit st = if st.blockchain then (ok tt, st) else commit_storage st

  unfoldable pub set_time : Timestamp → LedgerStorage S → LedgerStorage S
  set_time time st = record st { current_time = some time }

  unfoldable pub now : LedgerStorage S → Timestamp
  now st = unwrap_or st.current_time (p.timestamp_now st.persistent_store)

  unfoldable pub get_symbols_and_tickers : Action S Tickers
  get_symbols_and_tickers = do
    v ← or_raise (← get symbols_root) storage_key_not_found
    lift (as_tickers v)

  -- The symbols that the keys under `/config/symbols/` name.
  unfoldable pub parse_symbols : List (Bytes × Value) → Result (List Symbol)
  parse_symbols [] = ok []
  parse_symbols ((k, v) ∷ items) =
      let rest = parse_symbols items in
      elim (p.address_from_text (drop (length symbols_root_dash) k)) [
        | none ↦ err deserialization_error
        | some s ↦ elim rest [ ok ss ↦ ok (s ∷ ss) | err e ↦ err e ]
      ]

  -- `_get_symbols`
  unfoldable pub get_symbols_by_key : Action S (List Symbol)
  get_symbols_by_key st = (parse_symbols (p.iter_prefix st.persistent_store symbols_root_dash), st)

  unfoldable pub get_symbols : Action S (List Symbol)
  get_symbols st = elim (st.migrations.is_active token_migration) [
    | true ↦ get_symbols_by_key st
    | false ↦ (get_symbols_and_tickers >>= λ t. pure (map (λ e. e.0) t)) st
  ]

  unfoldable pub get_height : LedgerStorage S → ℕ
  get_height st = counter_or_zero (p.get st.persistent_store height_root)

  unfoldable pub inc_height : Action S ℕ
  inc_height = do
    current_height ← gets get_height
    apply ((height_root, put (be_u64 ((current_height + 1) % u64_mod))) ∷ [])
    pure current_height

  unfoldable pub hash : LedgerStorage S → Bytes
  hash st = unwrap_or st.current_hash (p.root_hash st.persistent_store)

  unfoldable pub get_identity : Bytes → Action S Address
  get_identity root = do v ← or_raise (← get root) storage_key_not_found; lift (as_address v)

  -- The identity under a key, or else the server's.
  unfoldable pub identity_or_server : Bytes → Action S Address
  identity_or_server root st = elim (p.get st.persistent_store root) [
    | none ↦ get_identity identity_root st
    | some v ↦ (as_address v, st)
  ]

  unfoldable pub get_subresource_counter : Address → LedgerStorage S → ℕ
  get_subresource_counter id st = counter_or_zero (
      p.get st.persistent_store
        (key_for_subresource_counter p.identity id (st.migrations.is_active token_migration)))

  -- The loop of `get_next_subresource`, from a counter and the address that it gives.
  unfoldable pub skip_symbols : ℕ → List Symbol → Address → ℕ → Address → Result ℕ
  skip_symbols zero symbols id current next = err out_of_fuel
  skip_symbols (suc fuel) symbols id current next =
      let more = λ (a : Address). skip_symbols fuel symbols id (current + 1) a in
      elim (contains symbols next) [
        | false ↦ ok current
        | true ↦ elim (ltb p.max_subresource_id (current + 1)) [
          | true ↦ err (subresource_exhausted id)
          | false ↦ elim (p.with_subresource_id id (current + 1)) [
            | none ↦ err invalid_subresource
            | some a ↦ more a
          ]
        ]
      ]

  -- The end of `get_next_subresource`: storing the next counter, and the address of this one.
  unfoldable pub use_counter : Bytes → Address → ℕ → Action S Address
  use_counter root id current = do
    active ← gets (λ st. st.migrations.is_active token_migration)
    apply (
        (key_for_subresource_counter p.identity id active, put (be_u32 ((current + 1) % u32_mod)))
        ∷ [])
    id' ← identity_or_server root
    or_raise (p.with_subresource_id id' current) invalid_subresource

  -- The search for a free counter, from the one stored.
  unfoldable pub find_counter : Address → Action S ℕ
  find_counter id = do
    first ← gets (get_subresource_counter id)
    raise_if (ltb p.max_subresource_id first) (subresource_exhausted id)
    symbols ← get_symbols
    next ← or_raise (p.with_subresource_id id first) invalid_subresource
    lift (skip_symbols (p.max_subresource_id + 1 - first) symbols id first next)

  unfoldable pub get_next_subresource : Bytes → Action S Address
  get_next_subresource root = do
    id ← identity_or_server root
    current ← find_counter id
    use_counter root id current

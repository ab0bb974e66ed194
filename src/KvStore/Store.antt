-- ===== src/KvStore/Store.antt =====
-- `KvStoreStorage` and its methods: src/many-kvstore/src/storage.rs and storage/event.rs. A write
-- whose failure is unwrapped panics; the text of any other failure is left out.
use many_framework.Prelude.{
  ⊤, ℕ, ◌+◌, ◌%◌, Bool, true, false, Option, none, some, [], ◌∷◌, ◌++◌, Bytes, codes, unwrap_or,
}
use many_framework.Types.{
  Address, Timestamp, EventId, EventInfo, Value, put, Batch, be_u32, be_u64, event, event_id,
  metadata, raw, KvStoreMetadata, Either, left, right, Result, ok, err, storage_apply_failed,
  invalid_subresource, deserialization_error, key_disabled, panic,
}
use many_framework.Platform.{Platform}
use many_framework.Storage.State.{Method, pure, gets, lift, or_raise, raise_if, ◌>>=◌, ◌>>◌}
use many_framework.Storage.Keys.{key_for_event}
use many_framework.Storage.Basic.{u64_mod, u32_mod, counter_or_zero}

pub record KvStoreStorage (S : Type 0) : Type 0 where
  pub persistent_store : S
  pub blockchain : Bool
  pub latest_event_id : EventId
  pub current_time : Option Timestamp
  pub current_hash : Option Bytes
  pub next_subresource : ℕ
  pub root_identity : Address

-- `KVSTORE_ROOT` and `KVSTORE_ACL_ROOT`
abbrev kvstore_root : Bytes
kvstore_root = codes "s"

abbrev kvstore_acl_root : Bytes
kvstore_acl_root = codes "a"

unfoldable pub value_key : Bytes → Bytes
value_key key = kvstore_root ++ key

unfoldable pub acl_key : Bytes → Bytes
acl_key key = kvstore_acl_root ++ key

abbrev kv_height_key : Bytes
kv_height_key = codes "/height"

abbrev latest_event_id_key : Bytes
latest_event_id_key = codes "/latest_event_id"

abbrev kv_event_count_key : Bytes
kv_event_count_key = codes "/events_count"

abbrev subresource_id_key : Bytes
subresource_id_key = codes "/config/subresource_id"

abbrev pub as_metadata : Value → Result KvStoreMetadata
as_metadata (metadata m) = ok m
as_metadata _ = err deserialization_error

-- `disabled` is given, and is not `Either::Left(false)`
abbrev pub is_disabled : Option (Either Bool Bytes) → Bool
is_disabled none = false
is_disabled (some (left b)) = b
is_disabled (some (right reason)) = true

-- The reason that a disabled key gives.
abbrev pub reason_of : Option (Either Bool Bytes) → Option Bytes
reason_of (some (right reason)) = some reason
reason_of _ = none

module _ {S : Type 0} (p : Platform S) where
  abbrev pub Call : Type 0 → Type 0
  Call A = Method (KvStoreStorage S) A

  unfoldable pub kv_apply : Batch → Call ⊤
  kv_apply b st = elim (p.apply st.persistent_store b) [
    | none ↦ (err storage_apply_failed, st)
    | some s ↦ (ok tt, record st { persistent_store = s })
  ]

  -- A write whose failure is unwrapped.
  unfoldable pub apply_or_panic : Batch → Call ⊤
  apply_or_panic b st = elim (p.apply st.persistent_store b) [
    | none ↦ (err panic, st)
    | some s ↦ (ok tt, record st { persistent_store = s })
  ]

  unfoldable pub commit_store : Call ⊤
  commit_store st = (ok tt, record st { persistent_store = p.commit st.persistent_store })

  unfoldable pub commit_unless_blockchain : Call ⊤
  commit_unless_blockchain st = elim st.blockchain [ true ↦ (ok tt, st) | false ↦ commit_store st ]

  unfoldable pub kv_set_time : Timestamp → KvStoreStorage S → KvStoreStorage S
  kv_set_time time st = record st { current_time = some time }

  unfoldable pub kv_now : KvStoreStorage S → Timestamp
  kv_now st = unwrap_or st.current_time (p.timestamp_now st.persistent_store)

  unfoldable pub new_subresource_id : Call Address
  new_subresource_id st =
      let current_id = st.next_subresource in
      let next = (current_id + 1) % u32_mod in
      (kv_apply ((subresource_id_key, put (be_u32 next)) ∷ [])
          >> or_raise (p.with_subresource_id st.root_identity current_id) invalid_subresource)
        (record st { next_subresource = next })

  unfoldable pub kv_get_height : KvStoreStorage S → ℕ
  kv_get_height st = counter_or_zero (p.get st.persistent_store kv_height_key)

  unfoldable pub kv_inc_height : Call ℕ
  kv_inc_height = do
    current_height ← gets kv_get_height
    apply_or_panic ((kv_height_key, put (be_u64 ((current_height + 1) % u64_mod))) ∷ [])
    pure current_height

  -- `commit`: the hash is what it returns beside a constant.
  unfoldable pub kv_commit : Call Bytes
  kv_commit = do
    height ← kv_inc_height
    latest ← gets (λ st. st.latest_event_id)
    apply_or_panic ((latest_event_id_key, put (event_id latest)) ∷ [])
    commit_store
    λ st.
        let root = p.root_hash st.persistent_store in
        (ok root, record st { current_hash = some root })

  unfoldable pub kv_hash : KvStoreStorage S → Bytes
  kv_hash st = unwrap_or st.current_hash (p.root_hash st.persistent_store)

  -- storage/event.rs
  unfoldable pub kv_new_event_id : Call EventId
  kv_new_event_id st =
      let id = p.add_id st.latest_event_id 1 in (ok id, record st { latest_event_id = id })

  unfoldable pub kv_nb_events : KvStoreStorage S → ℕ
  kv_nb_events st = counter_or_zero (p.get st.persistent_store kv_event_count_key)

  unfoldable pub kv_log_event : EventInfo → Call ⊤
  kv_log_event content = do
    current_nb_events ← gets kv_nb_events
    id ← kv_new_event_id
    time ← gets kv_now
    apply_or_panic (
        (key_for_event id, put (event (record { id = id; time = time; content = content })))
        ∷ (kv_event_count_key, put (be_u64 ((current_nb_events + 1) % u64_mod)))
        ∷ [])
    commit_unless_blockchain

  -- `get_metadata`
  unfoldable pub get_metadata : Bytes → Call (Option Value)
  get_metadata key = gets (λ st. p.get st.persistent_store (acl_key key))

  unfoldable pub check_enabled : Option Value → Call ⊤
  check_enabled none = pure tt
  check_enabled (some v) = do
    m ← lift (as_metadata v)
    raise_if (is_disabled m.disabled) key_disabled

  -- `get`
  unfoldable pub kv_get : Bytes → Call (Option Value)
  kv_get key = do
    found ← get_metadata key
    check_enabled found
    gets (λ st. p.get st.persistent_store (value_key key))

  -- `put`
  unfoldable pub kv_put : KvStoreMetadata → Bytes → Bytes → Call ⊤
  kv_put m key v = do
    kv_apply ((acl_key key, put (metadata m)) ∷ (value_key key, put (raw v)) ∷ [])
    kv_log_event (EventInfo.kv_store_put key v m.owner)
    commit_unless_blockchain

  -- `disable`
  unfoldable pub kv_disable : KvStoreMetadata → Bytes → Call ⊤
  kv_disable m key = do
    kv_apply ((acl_key key, put (metadata m)) ∷ [])
    kv_log_event (EventInfo.kv_store_disable key (reason_of m.disabled))
    commit_unless_blockchain

  -- `transfer`
  unfoldable pub kv_transfer : Bytes → Address → KvStoreMetadata → Call ⊤
  kv_transfer key previous_owner m = do
    kv_apply ((acl_key key, put (metadata m)) ∷ [])
    kv_log_event (EventInfo.kv_store_transfer key previous_owner m.owner)
    commit_unless_blockchain

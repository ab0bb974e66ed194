-- ===== src/KvStore/Handlers.antt =====
-- The handlers of the key-value store: src/many-kvstore/src/module.rs, and the permission checks at
-- the end of src/many-kvstore/src/module/account.rs.
use many_framework.Prelude.{
  ⊤, Bool, true, false, Option, none, some, List, [], ◌∷◌, Bytes, ◌==◌, not, if◌then◌else◌,
}
use many_framework.Types.{
  Address, Timestamp, Role, owner, can_kv_store_put, can_kv_store_disable, can_kv_store_transfer,
  Either, left, right, Value, KvStoreMetadata, permission_denied, anon_alt_denied,
  subres_alt_unsupported, key_not_found, cannot_disable_empty_key,
}
use many_framework.Platform.{Platform}
use many_framework.Storage.State.{pure, raise, gets, lift, or_raise, raise_if, ◌>>=◌, ◌>>◌}
use many_framework.KvStore.Store.{
  KvStoreStorage, Call, as_metadata, kv_get, get_metadata, kv_put, kv_disable, kv_transfer, kv_hash,
  kv_set_time,
}
use many_framework.KvStore.Accounts.{kv_account}

pub record PutArgs : Type 0 where
  pub key : Bytes
  pub value : Bytes
  pub alternative_owner : Option Address

pub record DisableArgs : Type 0 where
  pub key : Bytes
  pub alternative_owner : Option Address
  pub reason : Option Bytes

pub record TransferArgs : Type 0 where
  pub key : Bytes
  pub alternative_owner : Option Address
  pub new_owner : Address

-- `is_none`
abbrev pub is_absent {ℓ} : {A : Type ℓ} → Option A → Bool
is_absent none = true
is_absent (some a) = false

abbrev pub disabled_for : Option Bytes → Either Bool Bytes
disabled_for none = left true
disabled_for (some reason) = right reason

module _ {S : Type 0} (p : Platform S) where
  -- Why an alternative owner that is no account is refused.
  abbrev alternative_owner_refused : Address → Call p ⊤
  alternative_owner_refused id = raise (
      if p.is_subresource id
      then subres_alt_unsupported
      else (if p.is_anonymous id then anon_alt_denied else permission_denied))

  unfoldable pub validate_alternative_owner : Address → Address → List Role → Call p ⊤
  validate_alternative_owner sender id roles = kv_account p id >>= λ found. elim found [
    | none ↦ alternative_owner_refused id
    | some a ↦ lift (p.needs_role a sender roles)
  ]

  -- In whose name the sender acts.
  unfoldable pub acting_owner : Address → Option Address → List Role → Call p Address
  acting_owner sender none roles = pure sender
  acting_owner sender (some id) roles = do validate_alternative_owner sender id roles; pure id

  unfoldable pub check_owner : Address → Option Value → Call p ⊤
  check_owner id none = pure tt
  check_owner id (some v) = do
    m ← lift (as_metadata v)
    raise_if (not (m.owner == id)) permission_denied

  unfoldable pub verify_kv_acl : Address → Bytes → Call p ⊤
  verify_kv_acl id key = do found ← get_metadata p key; check_owner id found

  unfoldable pub kv_info : Call p Bytes
  kv_info = gets (kv_hash p)

  unfoldable pub query : Bytes → Call p KvStoreMetadata
  query key = do found ← get_metadata p key; v ← or_raise found key_not_found; lift (as_metadata v)

  unfoldable pub put_key : Address → PutArgs → Call p ⊤
  put_key sender args = do
    id ← acting_owner sender args.alternative_owner (can_kv_store_put ∷ owner ∷ [])
    verify_kv_acl id args.key
    kv_put p (record { owner = id; disabled = some (left false) }) args.key args.value

  unfoldable pub disable_key : Address → DisableArgs → Call p ⊤
  disable_key sender args = do
    found ← kv_get p args.key
    raise_if (is_absent found) cannot_disable_empty_key
    id ← acting_owner sender args.alternative_owner (can_kv_store_disable ∷ owner ∷ [])
    verify_kv_acl id args.key
    kv_disable p (record { owner = id; disabled = some (disabled_for args.reason) }) args.key

  unfoldable pub transfer_key : Address → TransferArgs → Call p ⊤
  transfer_key sender args = do
    found ← kv_get p args.key
    raise_if (is_absent found) key_not_found
    raise_if (p.is_anonymous args.new_owner) anon_alt_denied
    found_meta ← get_metadata p args.key
    v ← or_raise found_meta key_not_found
    m ← lift (as_metadata v)
    id ← acting_owner sender args.alternative_owner (can_kv_store_transfer ∷ owner ∷ [])
    verify_kv_acl id args.key
    kv_transfer p args.key id (record { owner = args.new_owner; disabled = m.disabled })

  -- `begin_block`, once the time is a timestamp
  unfoldable pub kv_begin_block : Option Timestamp → KvStoreStorage S → KvStoreStorage S
  kv_begin_block none st = st
  kv_begin_block (some time) st = kv_set_time p time st

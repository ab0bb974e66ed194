-- ===== src/KvStore/Refinement.antt =====
-- The handler `put` implements the operation on entries; and what the reads of the other handlers
-- find.
use many_framework.Prelude.{
  ◌≡◌, refl, false, none, some, [], ◌∷◌, Bytes, ◌==◌, if◌then◌else◌, arith, ap, bytes_eq_iff, inl,
  inr, Option-cases, Bool-cases,
}
use many_framework.Types.{
  Address, EventInfo, put, metadata, raw, KvStoreMetadata, left, Batch, ok, err, owner,
  can_kv_store_put, permission_denied, key_disabled,
}
use many_framework.Platform.{Platform, IsPlatform}
use many_framework.KvStore.Store.{
  KvStoreStorage, value_key, acl_key, is_disabled, get_metadata, check_enabled, kv_get, kv_put,
}
use many_framework.KvStore.Handlers.{PutArgs, acting_owner, check_owner, verify_kv_acl, put_key}
use many_framework.KvStore.Laws.{kv_stored, write_and_log_lem, value-kv_stored}
use many_framework.KvStore.Entries.{
  Entry, Entries, update, put_entry, raw_value, contents_value, Shows, Implements,
}

module _ {S : Type 0} (p : Platform S) (l : IsPlatform p) where
  kv_put-Shows :
      (meta : KvStoreMetadata) (key v : Bytes) (st : KvStoreStorage S) (m : Entries)
      → Shows p st m
      → Implements p
          (kv_put p meta key v st)
          st
          key
          m
          (ok (record { meta = meta; contents = some v }))
  unfolding kv_put acl_key value_key
  kv_put-Shows meta key v st m h =
      let b : Batch = (acl_key key, put (metadata meta)) ∷ (value_key key, put (raw v)) ∷ [] in
      let content = EventInfo.kv_store_put key v meta.owner in
      let done = write_and_log_lem p l b content st refl in
      (
        ground (arith, done),
        λ k. (
          ground (arith, done, value-kv_stored p l b content st (acl_key k) refl refl, h k),
          ground (arith, done, value-kv_stored p l b content st (value_key k) refl refl, h k),
        ),
      )

  -- Writing new metadata for an entry that is there.
  pub write_meta-Shows :
      (meta : KvStoreMetadata) (content : EventInfo) (key : Bytes) (st : KvStoreStorage S)
      (m : Entries) (e : Entry)
      → Shows p st m
      → m key ≡ some e
      → Shows p
          (kv_stored p ((acl_key key, put (metadata meta)) ∷ []) content st)
          (update key (record e { meta = meta }) m)
  unfolding acl_key value_key
  write_meta-Shows meta content key st m e h here k =
      let b : Batch = (acl_key key, put (metadata meta)) ∷ [] in
      (
        ground (arith, value-kv_stored p l b content st (acl_key k) refl refl, h k),
        ground (
          arith,
          value-kv_stored p l b content st (value_key k) refl refl,
          h k,
          bytes_eq_iff key k,
          ap contents_value here,
        ),
      )

  pub verify_kv_acl_lem :
      (id : Address) (key : Bytes) (st : KvStoreStorage S) (m : Entries)
      → Shows p st m
      → verify_kv_acl p id key st ≡ (
        elim (m key) [
          | none ↦ ok tt
          | some e ↦ if e.meta.owner == id then ok tt else err permission_denied
        ],
        st,
      )
  unfolding verify_kv_acl get_metadata check_owner
  verify_kv_acl_lem id key st m h = ground (arith, h key)

  pub kv_get_lem :
      (key : Bytes) (st : KvStoreStorage S) (m : Entries)
      → Shows p st m
      → kv_get p key st ≡ (
        elim (m key) [
          | none ↦ ok none
          | some e ↦
              if is_disabled e.meta.disabled then err key_disabled else ok (raw_value e.contents)
        ],
        st,
      )
  unfolding kv_get get_metadata check_enabled
  kv_get_lem key st m h = ground (arith, h key)

  -- The guard passes, or the sender's owner is not the key's.
  put_key_allowed :
      (sender id : Address) (args : PutArgs) (st : KvStoreStorage S)
      → acting_owner p sender args.alternative_owner (can_kv_store_put ∷ owner ∷ []) st
        ≡ (ok id, st)
      → verify_kv_acl p id args.key st ≡ (ok tt, st)
      → put_key p sender args st
        ≡ kv_put p (record { owner = id; disabled = some (left false) }) args.key args.value st
  unfolding put_key
  put_key_allowed sender id args st acts allowed = ground arith

  -- Where the storage holds entries, and the sender may act for an owner: `put` answers as the
  -- operation on the key's entry does. It is refused with nothing changed, or leaves the storage
  -- with the new entry under the key and every other entry as it was.
  pub put_refines :
      (sender id : Address) (args : PutArgs) (st : KvStoreStorage S) (m : Entries)
      → Shows p st m
      → acting_owner p sender args.alternative_owner (can_kv_store_put ∷ owner ∷ []) st
        ≡ (ok id, st)
      → Implements p (put_key p sender args st) st args.key m (put_entry id args.value (m args.key))
  unfolding put_key
  put_refines sender id args st m h acts =
      let meta : KvStoreMetadata = record { owner = id; disabled = some (left false) } in
      let written = kv_put-Shows meta args.key args.value st m h in
      let check = verify_kv_acl_lem id args.key st m h in
      elim (Option-cases (m args.key)) [
        | inl absent ↦
            rw absent
              (rw (put_key_allowed sender id args st acts (ground (arith, check, absent))) written)
        | inr (e, here) ↦ rw here (elim (Bool-cases (e.meta.owner == id)) [
          | inl same ↦
              rw (same, put_key_allowed sender id args st acts (ground (arith, check, here, same)))
                written
          | inr other ↦ rw other (ground (arith, check, here, other))
        ])
      ]

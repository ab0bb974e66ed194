-- ===== src/KvStore/Changes.antt =====
-- The handlers `disable` and `transfer` implement the operations on entries.
use many_framework.Prelude.{
  ◌≡◌, refl, true, false, some, [], ◌∷◌, Bytes, ◌==◌, arith, inl, inr, Option-cases, Bool-cases,
}
use many_framework.Types.{
  Address, EventInfo, Value, put, metadata, raw, KvStoreMetadata, Batch, ManyError, ok, err, owner,
  can_kv_store_disable, can_kv_store_transfer, permission_denied, key_disabled, key_not_found,
  cannot_disable_empty_key, anon_alt_denied,
}
use many_framework.Platform.{Platform, IsPlatform}
use many_framework.KvStore.Store.{
  KvStoreStorage, acl_key, reason_of, is_disabled, get_metadata, kv_get, kv_disable, kv_transfer,
}
use many_framework.KvStore.Handlers.{
  DisableArgs, TransferArgs, disabled_for, acting_owner, verify_kv_acl, disable_key, transfer_key,
}
use many_framework.KvStore.Laws.{kv_value, write_and_log_lem}
use many_framework.KvStore.Entries.{
  Entry, Entries, disable_entry, transfer_entry, Shows, Implements, Implements-err, Implements-ok,
}
use many_framework.KvStore.Refinement.{write_meta-Shows, verify_kv_acl_lem, kv_get_lem}

module _ {S : Type 0} (p : Platform S) (l : IsPlatform p) where
  disable_key_allowed :
      (sender id : Address) (args : DisableArgs) (v : Value) (st : KvStoreStorage S)
      → acting_owner p sender args.alternative_owner (can_kv_store_disable ∷ owner ∷ []) st
        ≡ (ok id, st)
      → kv_get p args.key st ≡ (ok (some v), st)
      → verify_kv_acl p id args.key st ≡ (ok tt, st)
      → disable_key p sender args st
        ≡ kv_disable p
            (record { owner = id; disabled = some (disabled_for args.reason) })
            args.key
            st
  unfolding disable_key
  disable_key_allowed sender id args v st acts live allowed = ground arith

  kv_disable-Shows :
      (meta : KvStoreMetadata) (key : Bytes) (st : KvStoreStorage S) (m : Entries) (e : Entry)
      → Shows p st m
      → m key ≡ some e
      → Implements p (kv_disable p meta key st) st key m (ok (record e { meta = meta }))
  unfolding kv_disable
  kv_disable-Shows meta key st m e h here =
      let content = EventInfo.kv_store_disable key (reason_of meta.disabled) in
      let b : Batch = (acl_key key, put (metadata meta)) ∷ [] in
      rw (write_and_log_lem p l b content st refl)
        (refl, write_meta-Shows p l meta content key st m e h here)

  -- Where the storage holds entries, and the sender may act for an owner: `disable` answers as the
  -- operation on the key's entry does, which refuses a key that is absent, has no contents, is
  -- disabled already or has another owner. It is refused with nothing changed, or leaves the storage
  -- with the new entry under the key and every other entry as it was.
  pub disable_refines :
      (sender id : Address) (args : DisableArgs) (st : KvStoreStorage S) (m : Entries)
      → Shows p st m
      → acting_owner p sender args.alternative_owner (can_kv_store_disable ∷ owner ∷ []) st
        ≡ (ok id, st)
      → Implements p
          (disable_key p sender args st)
          st
          args.key
          m
          (disable_entry id args.reason (m args.key))
  unfolding disable_key
  disable_refines sender id args st m h acts =
      let meta : KvStoreMetadata = record {
        owner = id;
        disabled = some (disabled_for args.reason);
      } in
      let check = verify_kv_acl_lem p l id args.key st m h in
      let found = kv_get_lem p l args.key st m h in
      let after = disable_key p sender args st in
      let outcome = disable_entry id args.reason (m args.key) in
      let refused = λ (x : ManyError). Implements-err p after st args.key m outcome x in
      elim (Option-cases (m args.key)) [
        | inl absent ↦
            refused cannot_disable_empty_key (ground (arith, absent))
              (ground (arith, found, absent))
        | inr (e, here) ↦ elim (Bool-cases (is_disabled e.meta.disabled)) [
          | inl disabled ↦
              refused key_disabled (ground (arith, here, disabled))
                (ground (arith, found, here, disabled))
          | inr enabled ↦ elim (Option-cases e.contents) [
            | inl empty ↦
                refused cannot_disable_empty_key (ground (arith, here, enabled, empty))
                  (ground (arith, found, here, enabled, empty))
            | inr (v, full) ↦ elim (Bool-cases (e.meta.owner == id)) [
              | inl same ↦
                  Implements-ok p after (kv_disable p meta args.key st) st args.key m outcome
                    (record e { meta = meta }) (ground (arith, here, enabled, full, same))
                    (disable_key_allowed sender id args (raw v) st acts
                      (ground (arith, found, here, enabled, full))
                      (ground (arith, check, here, same)))
                    (kv_disable-Shows meta args.key st m e h here)
              | inr other ↦
                  refused permission_denied (ground (arith, here, enabled, full, other))
                    (ground (arith, found, check, here, enabled, full, other))
            ]
          ]
        ]
      ]

  transfer_key_allowed :
      (sender id : Address) (args : TransferArgs) (v : Value) (meta : KvStoreMetadata)
      (st : KvStoreStorage S)
      → acting_owner p sender args.alternative_owner (can_kv_store_transfer ∷ owner ∷ []) st
        ≡ (ok id, st)
      → kv_get p args.key st ≡ (ok (some v), st)
      → p.is_anonymous args.new_owner ≡ false
      → kv_value p st (acl_key args.key) ≡ some (metadata meta)
      → verify_kv_acl p id args.key st ≡ (ok tt, st)
      → transfer_key p sender args st
        ≡ kv_transfer p args.key id (record { owner = args.new_owner; disabled = meta.disabled }) st
  unfolding transfer_key get_metadata
  transfer_key_allowed sender id args v meta st acts live named found allowed = ground arith

  kv_transfer-Shows :
      (meta : KvStoreMetadata) (id : Address) (key : Bytes) (st : KvStoreStorage S) (m : Entries)
      (e : Entry)
      → Shows p st m
      → m key ≡ some e
      → Implements p (kv_transfer p key id meta st) st key m (ok (record e { meta = meta }))
  unfolding kv_transfer
  kv_transfer-Shows meta id key st m e h here =
      let content = EventInfo.kv_store_transfer key id meta.owner in
      let b : Batch = (acl_key key, put (metadata meta)) ∷ [] in
      rw (write_and_log_lem p l b content st refl)
        (refl, write_meta-Shows p l meta content key st m e h here)

  -- Where the storage holds entries, and the sender may act for an owner: `transfer` answers as the
  -- operation on the key's entry does, which refuses a key that is absent, has no contents, is
  -- disabled or has another owner, and an anonymous new owner. It is refused with nothing changed, or
  -- leaves the storage with the new entry under the key and every other entry as it was.
  pub transfer_refines :
      (sender id : Address) (args : TransferArgs) (st : KvStoreStorage S) (m : Entries)
      → Shows p st m
      → acting_owner p sender args.alternative_owner (can_kv_store_transfer ∷ owner ∷ []) st
        ≡ (ok id, st)
      → Implements p
          (transfer_key p sender args st)
          st
          args.key
          m
          (transfer_entry (p.is_anonymous args.new_owner) id args.new_owner (m args.key))
  unfolding transfer_key get_metadata
  transfer_refines sender id args st m h acts =
      let check = verify_kv_acl_lem p l id args.key st m h in
      let found = kv_get_lem p l args.key st m h in
      let after = transfer_key p sender args st in
      let outcome = transfer_entry (p.is_anonymous args.new_owner) id args.new_owner (m args.key) in
      let refused = λ (x : ManyError). Implements-err p after st args.key m outcome x in
      elim (Option-cases (m args.key)) [
        | inl absent ↦
            refused key_not_found (ground (arith, absent)) (ground (arith, found, absent))
        | inr (e, here) ↦ elim (Bool-cases (is_disabled e.meta.disabled)) [
          | inl disabled ↦
              refused key_disabled (ground (arith, here, disabled))
                (ground (arith, found, here, disabled))
          | inr enabled ↦ elim (Option-cases e.contents) [
            | inl empty ↦
                refused key_not_found (ground (arith, here, enabled, empty))
                  (ground (arith, found, here, enabled, empty))
            | inr (v, full) ↦ elim (Bool-cases (p.is_anonymous args.new_owner)) [
              | inl anonymous ↦
                  refused anon_alt_denied (ground (arith, here, enabled, full, anonymous))
                    (ground (arith, found, here, enabled, full, anonymous))
              | inr named ↦ elim (Bool-cases (e.meta.owner == id)) [
                | inl same ↦
                    let meta : KvStoreMetadata = record {
                      owner = args.new_owner;
                      disabled = e.meta.disabled;
                    } in
                    Implements-ok p after (kv_transfer p args.key id meta st) st args.key m outcome
                      (record e { meta = meta }) (ground (arith, here, enabled, full, named, same))
                      (transfer_key_allowed sender id args (raw v) e.meta st acts
                        (ground (arith, found, here, enabled, full)) named
                        (ground (arith, h args.key, here)) (ground (arith, check, here, same)))
                      (kv_transfer-Shows meta id args.key st m e h here)
                | inr other ↦
                    refused permission_denied (ground (arith, here, enabled, full, named, other))
                      (ground (arith, found, check, h args.key, here, enabled, full, named, other))
              ]
            ]
          ]
        ]
      ]

  -- A key that is disabled cannot be transferred, whoever asks: the request is refused with nothing
  -- changed.
  pub transfer_disabled_refused :
      (sender : Address) (args : TransferArgs) (st : KvStoreStorage S) (m : Entries) (e : Entry)
      → Shows p st m
      → m args.key ≡ some e
      → is_disabled e.meta.disabled ≡ true
      → transfer_key p sender args st ≡ (err key_disabled, st)
  unfolding transfer_key
  transfer_disabled_refused sender args st m e h here disabled =
      ground (arith, kv_get_lem p l args.key st m h)

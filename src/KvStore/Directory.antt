-- ===== src/KvStore/Directory.antt =====
-- Requests about keys leave the accounts as they are.
use many_framework.Prelude.{
  ◌≡◌, refl, false, Option, some, [], ◌∷◌, Bytes, arith, inl, inr, Option-cases,
}
use many_framework.Types.{
  Address, owner, can_kv_store_put, can_kv_store_disable, can_kv_store_transfer, left, EventInfo,
  put, metadata, raw, Batch, KvStoreMetadata, Value,
}
use many_framework.Platform.{Platform, IsPlatform}
use many_framework.Storage.Keys.{key_for_account}
use many_framework.Storage.Basic.Subresources.{Result-cases}
use many_framework.KvStore.Store.{
  KvStoreStorage, value_key, acl_key, kv_put, kv_disable, kv_transfer, reason_of, get_metadata,
}
use many_framework.KvStore.Accounts.{kv_account, kv_account_even_disabled}
use many_framework.KvStore.Handlers.{
  PutArgs, DisableArgs, TransferArgs, disabled_for, put_key, disable_key, transfer_key,
}
use many_framework.KvStore.Laws.{kv_value, write_and_log_lem, value-kv_stored}
use many_framework.KvStore.Entries.{Entries, Shows}
use many_framework.KvStore.Refinement.{verify_kv_acl_lem, kv_get_lem}
use many_framework.KvStore.Delegates.{Directory, HasAccounts, actor, acting_owner_lem}

module _ {S : Type 0} (p : Platform S) where
  abbrev account_value : KvStoreStorage S → Address → Option Value
  account_value st id = kv_value p st (key_for_account p.identity id)

  HasAccounts-same :
      (st after : KvStoreStorage S) (accounts : Directory)
      → ((id : Address) → account_value after id ≡ account_value st id)
      → HasAccounts p st accounts
      → HasAccounts p after accounts
  unfolding kv_account kv_account_even_disabled
  HasAccounts-same st after accounts same h id = ground (arith, same id, h id)

module _ {S : Type 0} (p : Platform S) (l : IsPlatform p) where
  account_value-kv_put :
      (meta : KvStoreMetadata) (key v : Bytes) (st : KvStoreStorage S) (id : Address)
      → account_value p (kv_put p meta key v st).1 id ≡ account_value p st id
  unfolding kv_put acl_key value_key key_for_account
  account_value-kv_put meta key v st id =
      let b : Batch = (acl_key key, put (metadata meta)) ∷ (value_key key, put (raw v)) ∷ [] in
      let content = EventInfo.kv_store_put key v meta.owner in
      ground (
        arith,
        write_and_log_lem p l b content st refl,
        value-kv_stored p l b content st (key_for_account p.identity id) refl refl,
      )

  account_value-kv_disable :
      (meta : KvStoreMetadata) (key : Bytes) (st : KvStoreStorage S) (id : Address)
      → account_value p (kv_disable p meta key st).1 id ≡ account_value p st id
  unfolding kv_disable acl_key key_for_account
  account_value-kv_disable meta key st id =
      let b : Batch = (acl_key key, put (metadata meta)) ∷ [] in
      let content = EventInfo.kv_store_disable key (reason_of meta.disabled) in
      ground (
        arith,
        write_and_log_lem p l b content st refl,
        value-kv_stored p l b content st (key_for_account p.identity id) refl refl,
      )

  account_value-kv_transfer :
      (meta : KvStoreMetadata) (by : Address) (key : Bytes) (st : KvStoreStorage S) (id : Address)
      → account_value p (kv_transfer p key by meta st).1 id ≡ account_value p st id
  unfolding kv_transfer acl_key key_for_account
  account_value-kv_transfer meta by key st id =
      let b : Batch = (acl_key key, put (metadata meta)) ∷ [] in
      let content = EventInfo.kv_store_transfer key by meta.owner in
      ground (
        arith,
        write_and_log_lem p l b content st refl,
        value-kv_stored p l b content st (key_for_account p.identity id) refl refl,
      )

module _ {S : Type 0} (p : Platform S) (l : IsPlatform p) (sender : Address) (st : KvStoreStorage S)
    (m : Entries) (accounts : Directory) (h : Shows p st m)
    (known : HasAccounts p st accounts) where
  pub put_key-HasAccounts : (args : PutArgs) → HasAccounts p (put_key p sender args st).1 accounts
  unfolding put_key
  put_key-HasAccounts args =
      let roles = can_kv_store_put ∷ owner ∷ [] in
      let acts = acting_owner_lem p sender args.alternative_owner roles st accounts known in
      HasAccounts-same p st _ accounts
        (λ id. elim (Result-cases (actor p accounts sender args.alternative_owner roles)) [
          | inr (x, refused) ↦ ground (arith, acts, refused)
          | inl (who, allowed) ↦ ground (
            arith,
            acts,
            allowed,
            verify_kv_acl_lem p l who args.key st m h,
            account_value-kv_put p l (record { owner = who; disabled = some (left false) }) args.key
                args.value st id,
          )
        ])
        known

  pub disable_key-HasAccounts :
      (args : DisableArgs) → HasAccounts p (disable_key p sender args st).1 accounts
  unfolding disable_key
  disable_key-HasAccounts args =
      let roles = can_kv_store_disable ∷ owner ∷ [] in
      let acts = acting_owner_lem p sender args.alternative_owner roles st accounts known in
      HasAccounts-same p st _ accounts
        (λ id. elim (Result-cases (actor p accounts sender args.alternative_owner roles)) [
          | inr (x, refused) ↦ ground (arith, acts, refused, kv_get_lem p l args.key st m h)
          | inl (who, allowed) ↦ ground (
            arith,
            acts,
            allowed,
            kv_get_lem p l args.key st m h,
            verify_kv_acl_lem p l who args.key st m h,
            account_value-kv_disable p l
                (record { owner = who; disabled = some (disabled_for args.reason) }) args.key st id,
          )
        ])
        known

  pub transfer_key-HasAccounts :
      (args : TransferArgs) → HasAccounts p (transfer_key p sender args st).1 accounts
  unfolding transfer_key get_metadata
  transfer_key-HasAccounts args =
      let roles = can_kv_store_transfer ∷ owner ∷ [] in
      let acts = acting_owner_lem p sender args.alternative_owner roles st accounts known in
      HasAccounts-same p st _ accounts
        (λ id. elim (Result-cases (actor p accounts sender args.alternative_owner roles)) [
          | inr (x, refused) ↦
              ground (arith, acts, refused, kv_get_lem p l args.key st m h, h args.key)
          | inl (who, allowed) ↦ elim (Option-cases (m args.key)) [
            | inl absent ↦
                ground (arith, acts, allowed, kv_get_lem p l args.key st m h, h args.key, absent)
            | inr (e, here) ↦ ground (
              arith,
              acts,
              allowed,
              here,
              kv_get_lem p l args.key st m h,
              h args.key,
              verify_kv_acl_lem p l who args.key st m h,
              account_value-kv_transfer p l
                  (record { owner = args.new_owner; disabled = e.meta.disabled }) who args.key st
                  id,
            )
          ]
        ])
        known

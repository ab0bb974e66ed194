-- ===== src/Storage/IdStore.antt =====
-- The identity store, where a credential is kept under a recall phrase and an address:
-- src/many-ledger/src/storage/idstore.rs.
pub mod Laws
use many_framework.Prelude.{
  ⊤, ℕ, ◌+◌, ◌%◌, Bool, true, false, Option, none, some, List, [], ◌∷◌, ◌++◌, Bytes, codes, is_some,
}
use many_framework.Types.{
  Address, Value, put, be_u64, credential, CredentialStorage, Result, ok, err, existing_entry,
  entry_not_found, deserialization_error,
}
use many_framework.Platform.{Platform}
use many_framework.Storage.State.{Action, pure, gets, raise, lift, raise_if, ◌>>=◌, ◌>>◌}
use many_framework.Storage.Keys.{idstore_root, idstore_seed_root}
use many_framework.Storage.Basic.{u64_mod, counter_or_zero, get, apply, maybe_commit}

pub data IdStoreRootSeparator : Type 0 where
  recall_phrase by_address : IdStoreRootSeparator

abbrev separator_value : IdStoreRootSeparator → Bytes
separator_value recall_phrase = codes "00"
separator_value by_address = codes "01"

-- The key of an entry.
unfoldable pub key_for_entry : IdStoreRootSeparator → Bytes → Bytes
key_for_entry sep key = idstore_root ++ (separator_value sep ++ key)

abbrev as_credential : Value → Result CredentialStorage
as_credential (credential c) = ok c
as_credential _ = err deserialization_error

abbrev parts : CredentialStorage → Bytes × Bytes
parts c = (c.cred_id, c.public_key)

module _ {S : Type 0} (p : Platform S) where
  unfoldable pub inc_idstore_seed : Action S ℕ
  inc_idstore_seed = do
    seed ← gets (λ st. counter_or_zero (p.get st.persistent_store idstore_seed_root))
    apply p ((idstore_seed_root, put (be_u64 ((seed + 1) % u64_mod))) ∷ [])
    maybe_commit p
    pure seed

  -- An entry that exists is looked for under the bare recall phrase.
  unfoldable pub store : List Bytes → Address → Bytes → Bytes → Action S ⊤
  store phrase id cred_id public_key = do
    let recall_phrase_cbor = p.encode_recall_phrase phrase
    found ← get p recall_phrase_cbor
    raise_if (is_some found) existing_entry
    let value = credential (record { cred_id = cred_id; public_key = public_key })
    apply p (
        (key_for_entry recall_phrase recall_phrase_cbor, put value)
        ∷ (key_for_entry by_address (p.address_bytes id), put value)
        ∷ [])
    maybe_commit p

  unfoldable pub get_from_storage : Bytes → IdStoreRootSeparator → Action S (Option Value)
  get_from_storage key sep = get p (key_for_entry sep key)

  abbrev read_entry : Option Value → Action S (Bytes × Bytes)
  read_entry none = raise entry_not_found
  read_entry (some v) = lift (as_credential v) >>= λ c. pure (parts c)

  unfoldable pub get_from_recall_phrase : List Bytes → Action S (Bytes × Bytes)
  get_from_recall_phrase phrase = do
    found ← get_from_storage (p.encode_recall_phrase phrase) recall_phrase
    read_entry found

  unfoldable pub get_from_address : Address → Action S (Bytes × Bytes)
  get_from_address id = do
    found ← get_from_storage (p.address_bytes id) by_address
    read_entry found

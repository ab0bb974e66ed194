-- ===== src/Storage/IdStore/Laws.antt =====
-- What is stored in the identity store is found again, and a second entry replaces the first.
use many_framework.Prelude.{
  ◌≡◌, refl, true, false, none, List, [], ◌∷◌, Bytes, bytes_eq, bytes_eq_refl, arith,
}
use many_framework.Types.{Address, Batch, put, credential, ok}
use many_framework.Platform.{Platform, IsPlatform, is_sorted, batch_get, starts_array}
use many_framework.Storage.State.{LedgerStorage}
use many_framework.Storage.Basic.Laws.{
  written, committed, value, apply_sorted, value-written, value-committed, maybe_commit_lem,
}
use many_framework.Storage.IdStore.{
  recall_phrase, by_address, key_for_entry, store, get_from_storage, get_from_recall_phrase,
  get_from_address,
}

module _ {S : Type 0} (p : Platform S) where
  -- The two entries.
  unfoldable entries : List Bytes → Address → Bytes → Bytes → Batch
  entries phrase id cred_id public_key =
      (
        key_for_entry recall_phrase (p.encode_recall_phrase phrase),
        put (credential (record { cred_id = cred_id; public_key = public_key })),
      )
      ∷ (
        key_for_entry by_address (p.address_bytes id),
        put (credential (record { cred_id = cred_id; public_key = public_key })),
      )
      ∷ []

  -- The storage once they are stored.
  unfoldable stored : List Bytes → Address → Bytes → Bytes → LedgerStorage S → LedgerStorage S
  stored phrase id cred_id public_key st =
      committed p (written p (entries phrase id cred_id public_key) st)

entry_not_array :
    (k : Bytes) (j : Bytes)
    → starts_array k ≡ true
    → bytes_eq (key_for_entry recall_phrase j) k ≡ false
unfolding key_for_entry
entry_not_array [] j h = ground arith
entry_not_array (x ∷ xs) j h = ground arith

address_not_array :
    (k : Bytes) (j : Bytes)
    → starts_array k ≡ true
    → bytes_eq (key_for_entry by_address j) k ≡ false
unfolding key_for_entry
address_not_array [] j h = ground arith
address_not_array (x ∷ xs) j h = ground arith

entries_differ :
    (i j : Bytes) → bytes_eq (key_for_entry recall_phrase i) (key_for_entry by_address j) ≡ false
unfolding key_for_entry
entries_differ i j = refl

module _ {S : Type 0} (p : Platform S) (l : IsPlatform p) where
  entries_sorted :
      (phrase : List Bytes) (id : Address) (cred_id public_key : Bytes)
      → is_sorted (entries p phrase id cred_id public_key) ≡ true
  unfolding entries key_for_entry
  entries_sorted phrase id cred_id public_key = refl

  store_eq :
      (phrase : List Bytes) (id : Address) (cred_id public_key : Bytes) (st : LedgerStorage S)
      → value p st (p.encode_recall_phrase phrase) ≡ none
      → store p phrase id cred_id public_key st ≡ (ok tt, stored p phrase id cred_id public_key st)
  unfolding store stored entries
  store_eq phrase id cred_id public_key st h =
      let b = entries p phrase id cred_id public_key in
      ground (
        arith,
        apply_sorted p l b st (entries_sorted phrase id cred_id public_key),
        maybe_commit_lem p (written p b st),
      )

  value-stored :
      (phrase : List Bytes) (id : Address) (cred_id public_key : Bytes) (st : LedgerStorage S)
      (k : Bytes)
      → value p (stored p phrase id cred_id public_key st) k
        ≡ batch_get (entries p phrase id cred_id public_key) k (value p st k)
  unfolding stored
  value-stored phrase id cred_id public_key st k =
      let b = entries p phrase id cred_id public_key in
      ground (
        arith,
        value-committed p l (written p b st) k,
        value-written p l b st k (entries_sorted phrase id cred_id public_key),
      )

  -- With nothing under the bare recall phrase, storing succeeds, and the credential is found by the
  -- phrase and by the address.
  pub store_lem :
      (phrase : List Bytes) (id : Address) (cred_id public_key : Bytes) (st : LedgerStorage S)
      → value p st (p.encode_recall_phrase phrase) ≡ none
      → let after = store p phrase id cred_id public_key st in
        (after.0 ≡ ok tt)
        × (get_from_recall_phrase p phrase after.1 ≡ (ok (cred_id, public_key), after.1))
        × (get_from_address p id after.1 ≡ (ok (cred_id, public_key), after.1))
  unfolding get_from_recall_phrase get_from_address get_from_storage entries
  store_lem phrase id cred_id public_key st h =
      let done = store_eq phrase id cred_id public_key st h in
      let kp = key_for_entry recall_phrase (p.encode_recall_phrase phrase) in
      let ka = key_for_entry by_address (p.address_bytes id) in
      (
        ground (arith, done),
        ground (arith, done, value-stored phrase id cred_id public_key st kp, bytes_eq_refl kp),
        ground (
          arith,
          done,
          value-stored phrase id cred_id public_key st ka,
          bytes_eq_refl ka,
          entries_differ (p.encode_recall_phrase phrase) (p.address_bytes id),
        ),
      )

  -- With nothing under the bare recall phrase, a phrase that was stored is stored again without an
  -- error, and then gives the second credential.
  pub store_replaces :
      (phrase : List Bytes) (id id' : Address) (cred_id public_key cred_id' public_key' : Bytes)
      (st : LedgerStorage S)
      → value p st (p.encode_recall_phrase phrase) ≡ none
      → let between = (store p phrase id cred_id public_key st).1 in
        let after = store p phrase id' cred_id' public_key' between in
        (after.0 ≡ ok tt)
        × (get_from_recall_phrase p phrase after.1 ≡ (ok (cred_id', public_key'), after.1))
  unfolding entries
  store_replaces phrase id id' cred_id public_key cred_id' public_key' st h =
      let between = (store p phrase id cred_id public_key st).1 in
      let bare = p.encode_recall_phrase phrase in
      let still : value p between bare ≡ none = ground (
        arith,
        store_eq phrase id cred_id public_key st h,
        value-stored phrase id cred_id public_key st bare,
        entry_not_array bare bare (l.encode_recall_phrase_lem phrase),
        address_not_array bare (p.address_bytes id) (l.encode_recall_phrase_lem phrase),
      ) in
      let second = store_lem phrase id' cred_id' public_key' between still in (second.0, second.1)

-- ===== src/Tests/Credentials.antt =====
-- The identity store on the sample platform.
use many_framework.Prelude.{◌≡◌, refl, true, false, Bool, some, [], ◌∷◌, List, Bytes}
use many_framework.Types.{ok, put, address}
use many_framework.Storage.State.{LedgerStorage}
use many_framework.Storage.Keys.{identity_root}
use many_framework.Storage.IdStore.{store, get_from_recall_phrase, get_from_address}
use many_framework.Storage.IdStore.Laws.{store_lem, store_replaces}
use many_framework.Storage.IdStore.{inc_idstore_seed, get_from_storage, key_for_entry}
use many_framework.Storage.Basic.{apply, maybe_commit}
use many_framework.Storage.Accounts.{is_ok}
use many_framework.Module.IdStore.{
  StoreArgs, Bip39, generate_recall_phrase, phrase_of_seed, find_phrase, store_credential,
}
use many_framework.Module.IdStore.Laws.{store_credential_unused}
use many_framework.Tests.Sample.{Store, platform, storage_of}
use many_framework.Tests.SampleLaws.{platform-IsPlatform}

abbrev empty_store : LedgerStorage Store
empty_store = storage_of ((identity_root, put (address 9)) ∷ [])

abbrev words : List Bytes
words = (97 ∷ 98 ∷ []) ∷ (99 ∷ []) ∷ []

store_lem_example :
    let after = store platform words 4 (1 ∷ []) (2 ∷ []) empty_store in
    (after.0 ≡ ok tt)
    × (get_from_recall_phrase platform words after.1 ≡ (ok (1 ∷ [], 2 ∷ []), after.1))
    × (get_from_address platform 4 after.1 ≡ (ok (1 ∷ [], 2 ∷ []), after.1))
store_lem_example =
    store_lem platform platform-IsPlatform words 4 (1 ∷ []) (2 ∷ []) empty_store refl

store_replaces_example :
    let between = (store platform words 4 (1 ∷ []) (2 ∷ []) empty_store).1 in
    let after = store platform words 5 (3 ∷ []) (4 ∷ []) between in
    (after.0 ≡ ok tt)
    × (get_from_recall_phrase platform words after.1 ≡ (ok (3 ∷ [], 4 ∷ []), after.1))
store_replaces_example =
    store_replaces platform platform-IsPlatform words 4 5 (1 ∷ []) (2 ∷ []) (3 ∷ []) (4 ∷ [])
      empty_store refl

abbrev pub one_word : Bip39
one_word = record {
  from_slice = λ n seed. some seed;
  to_mnemonics = λ w c entropy. some (entropy ∷ []);
}

abbrev pub any_key : Bytes → Bool
any_key k = true

abbrev new_credential : StoreArgs
new_credential = record {
  address = 4;
  cred_id = 0 ∷ 1 ∷ 2 ∷ 3 ∷ 4 ∷ 5 ∷ 6 ∷ 7 ∷ 8 ∷ 9 ∷ 10 ∷ 11 ∷ 12 ∷ 13 ∷ 14 ∷ 15 ∷ [];
  public_key = 2 ∷ [];
}

store_credential_unused_example :
    let between = (find_phrase platform one_word any_key 8 empty_store).1 in
    let stored = store platform ((0 ∷ 0 ∷ []) ∷ []) 4 new_credential.cred_id (2 ∷ []) between in
    (is_ok (get_from_recall_phrase platform ((0 ∷ 0 ∷ []) ∷ []) between).0 ≡ false)
    × (stored.0 ≡ ok tt)
    × ((store_credential platform one_word any_key 4 new_credential empty_store).1 ≡ stored.1)
unfolding store_credential find_phrase phrase_of_seed generate_recall_phrase inc_idstore_seed store
    get_from_recall_phrase get_from_storage key_for_entry apply maybe_commit
store_credential_unused_example =
    store_credential_unused platform one_word any_key 4 new_credential empty_store
      ((0 ∷ 0 ∷ []) ∷ []) refl

-- ===== src/Module/IdStore.antt =====
-- The handlers of the identity store: src/many-ledger/src/module/idstore.rs. The library of BIP 39
-- words and the decoding of a public key (`CoseKey::from_slice`) are parameters.
pub mod Laws
use many_framework.Prelude.{
  ⊤, ℕ, zero, suc, ◌+◌, ◌/◌, ◌%◌, ◌^◌, Bool, true, false, Option, none, some, List, [], ◌∷◌, ◌++◌,
  Bytes, length, drop, ltb, not, ◌||◌, if◌then◌else◌,
}
use many_framework.Types.{
  Address, Result, ok, err, invalid_identity, invalid_address, invalid_credential_id,
  deserialization_error, recall_phrase_generation_failed, panic, unknown, entropy_failed,
}
use many_framework.Platform.{Platform}
use many_framework.Storage.State.{Action, pure, raise, lift, raise_if, ◌>>=◌, ◌>>◌}
use many_framework.Storage.Accounts.{is_ok}
use many_framework.Storage.IdStore as Storage
use many_framework.Storage.IdStore.{inc_idstore_seed, get_from_recall_phrase}

pub record StoreArgs : Type 0 where
  pub address : Address
  pub cred_id : Bytes
  pub public_key : Bytes

-- The big-endian bytes of a number, in the given count.
abbrev be_bytes : ℕ → ℕ → Bytes
be_bytes zero n = []
be_bytes (suc c) n = be_bytes c (n / 256) ++ (n % 256) ∷ []

-- `to_be_bytes` of a `u64`
abbrev u64_bytes : ℕ → Bytes
u64_bytes n = be_bytes 8 n

-- `bip39_dict`: the entropy of so many full bytes, and its mnemonics, so many words with so many
-- bits of checksum, as English words.
pub record Bip39 : Type 0 where
  pub from_slice : ℕ → Bytes → Option Bytes
  pub to_mnemonics : ℕ → ℕ → Bytes → Option (List Bytes)

unfoldable pub generate_recall_phrase : Bip39 → ℕ → ℕ → ℕ → Bytes → Result (List Bytes)
generate_recall_phrase dict w fb cs seed = elim (dict.from_slice fb seed) [
  | none ↦ err (unknown entropy_failed)
  | some entropy ↦ elim (dict.to_mnemonics w cs entropy) [ none ↦ err panic | some ws ↦ ok ws ]
]

-- The phrase of a seed; a seed of more than five bytes panics.
unfoldable pub phrase_of_seed : Bip39 → ℕ → Result (List Bytes)
phrase_of_seed dict seed =
    if ltb seed (2 ^ 16)
    then generate_recall_phrase dict 2 2 6 (drop 6 (u64_bytes seed))
    else (if ltb seed (2 ^ 24)
        then generate_recall_phrase dict 3 4 1 (drop 4 (u64_bytes seed))
        else (if ltb seed (2 ^ 32)
            then generate_recall_phrase dict 4 5 4 (drop 3 (u64_bytes seed))
            else (if ltb seed (2 ^ 40)
                then generate_recall_phrase dict 5 6 7 (drop 2 (u64_bytes seed))
                else err panic)))

module _ {S : Type 0} (p : Platform S) (dict : Bip39) (is_cose_key : Bytes → Bool) where
  -- The loop of `store`, by the tries that are left.
  unfoldable pub find_phrase : ℕ → Action S (List Bytes)
  find_phrase zero = raise recall_phrase_generation_failed
  find_phrase (suc tries) =
      let more = find_phrase tries in
      do
        seed ← inc_idstore_seed p
        phrase ← lift (phrase_of_seed dict seed)
        λ st. elim (is_ok (get_from_recall_phrase p phrase st).0) [
          | true ↦ more st
          | false ↦ (ok phrase, st)
        ]

  -- `!(16..=1023).contains(&cred_id.0.len())`
  abbrev pub bad_length : ℕ → Bool
  bad_length n = ltb n 16 || ltb 1023 n

  unfoldable pub store_credential : Address → StoreArgs → Action S (List Bytes)
  store_credential sender args = do
    raise_if (p.is_anonymous sender) invalid_identity
    raise_if (not (p.is_public_key args.address)) invalid_address
    raise_if (bad_length (length args.cred_id)) invalid_credential_id
    raise_if (not (is_cose_key args.public_key)) deserialization_error
    phrase ← find_phrase 8
    Storage.store p phrase args.address args.cred_id args.public_key
    pure phrase

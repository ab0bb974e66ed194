-- ===== src/Module/IdStore/Laws.antt =====
-- What the handler of `idstore.store` refuses, and what it does not overwrite.
use many_framework.Prelude.{
  ℕ, zero, suc, ◌≡◌, true, false, Bool, List, Bytes, length, not, ◌||◌, ltb, arith, Bool-cases, inl,
  inr,
}
use many_framework.Types.{Address, ok}
use many_framework.Platform.{Platform}
use many_framework.Storage.State.{LedgerStorage}
use many_framework.Storage.Basic.Subresources.{Result-cases}
use many_framework.Storage.Accounts.{is_ok}
use many_framework.Storage.IdStore as Storage
use many_framework.Storage.IdStore.{inc_idstore_seed, get_from_recall_phrase}
use many_framework.Module.IdStore.{StoreArgs, Bip39, phrase_of_seed, find_phrase, store_credential}

module _ {S : Type 0} (p : Platform S) (dict : Bip39) (is_cose_key : Bytes → Bool) where
  -- An anonymous sender, an address that is no public key, a credential id of less than 16 or more
  -- than 1023 bytes and a key that cannot be decoded are refused with nothing changed, the seed
  -- included.
  pub store_credential_refused :
      (sender : Address) (args : StoreArgs) (st : LedgerStorage S)
      → (p.is_anonymous sender
          || (not (p.is_public_key args.address)
              || ((ltb (length args.cred_id) 16 || ltb 1023 (length args.cred_id))
                  || not (is_cose_key args.public_key))))
        ≡ true
      → let after = store_credential p dict is_cose_key sender args st in
        (is_ok after.0 ≡ false) × (after.1 ≡ st)
  unfolding store_credential
  store_credential_refused sender args st bad = (ground arith, ground arith)

  find_phrase-unused :
      (tries : ℕ) (st : LedgerStorage S) (phrase : List Bytes)
      → (find_phrase p dict is_cose_key tries st).0 ≡ ok phrase
      → let between = (find_phrase p dict is_cose_key tries st).1 in
        is_ok (get_from_recall_phrase p phrase between).0 ≡ false
  unfolding find_phrase
  find_phrase-unused zero st phrase e = absurd (cc)
  find_phrase-unused (suc tries) st phrase e = elim (Result-cases (inc_idstore_seed p st).0) [
    | inr (x, failed) ↦ absurd (ground (arith, failed, e))
    | inl (seed, taken) ↦ elim (Result-cases (phrase_of_seed dict seed)) [
      | inr (x, failed) ↦ absurd (ground (arith, taken, failed, e))
      | inl (words, made) ↦
          let next = (inc_idstore_seed p st).1 in
          elim (Bool-cases (is_ok (get_from_recall_phrase p words next).0)) [
            | inl used ↦ ground (arith, taken, made, used, e, find_phrase-unused tries next phrase)
            | inr unused ↦ ground (arith, taken, made, unused, e)
          ]
    ]
  ]

  -- Where the handler answers with a phrase, it stored the credential under a phrase that led to no
  -- credential when it was chosen.
  pub store_credential_unused :
      (sender : Address) (args : StoreArgs) (st : LedgerStorage S) (phrase : List Bytes)
      → (store_credential p dict is_cose_key sender args st).0 ≡ ok phrase
      → let between = (find_phrase p dict is_cose_key 8 st).1 in
        let stored = Storage.store p phrase args.address args.cred_id args.public_key between in
        (is_ok (get_from_recall_phrase p phrase between).0 ≡ false)
        × (stored.0 ≡ ok tt)
        × ((store_credential p dict is_cose_key sender args st).1 ≡ stored.1)
  unfolding store_credential
  store_credential_unused sender args st phrase e =
      elim (Result-cases (find_phrase p dict is_cose_key 8 st).0) [
        | inl (words, found) ↦
            let same : words ≡ phrase = ground (arith, found, e) in
            (
              find_phrase-unused 8 st phrase (ground (arith, found, same)),
              ground (arith, found, same, e),
              ground (arith, found, same, e),
            )
        | inr (x, failed) ↦ absurd (ground (arith, failed, e))
      ]

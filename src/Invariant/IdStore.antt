-- ===== src/Invariant/IdStore.antt =====
-- Storing a credential keeps the storage sound.
use many_framework.Prelude.{ℕ, zero, suc, Bool, Bytes, List, arith, inl, inr}
use many_framework.Types.{Address}
use many_framework.Platform.{Platform, IsPlatform}
use many_framework.Storage.State.{LedgerStorage}
use many_framework.Storage.Basic.Subresources.{Result-cases}
use many_framework.Storage.IdStore.{inc_idstore_seed, store}
use many_framework.Module.IdStore.{Bip39, StoreArgs, find_phrase, store_credential}
use many_framework.Invariant.Sound.{Sound, apply_plain-Sound, maybe_commit-Sound}

module _ {S : Type 0} (p : Platform S) (l : IsPlatform p) where
  inc_idstore_seed-Sound : (st : LedgerStorage S) → Sound p st → Sound p (inc_idstore_seed p st).1
  unfolding inc_idstore_seed
  inc_idstore_seed-Sound st h = grind (arith, apply_plain-Sound p l, maybe_commit-Sound p l)

  store-Sound :
      (phrase : List Bytes) (id : Address) (cred_id public_key : Bytes) (st : LedgerStorage S)
      → Sound p st
      → Sound p (store p phrase id cred_id public_key st).1
  unfolding store
  store-Sound phrase id cred_id public_key st h =
      grind (arith, apply_plain-Sound p l, maybe_commit-Sound p l)

module _ {S : Type 0} (p : Platform S) (l : IsPlatform p) (dict : Bip39)
    (is_cose_key : Bytes → Bool) where
  find_phrase-Sound :
      (tries : ℕ) (st : LedgerStorage S)
      → Sound p st
      → Sound p (find_phrase p dict is_cose_key tries st).1
  unfolding find_phrase
  find_phrase-Sound zero st h = h
  find_phrase-Sound (suc tries) st h =
      let st' = (inc_idstore_seed p st).1 in
      let more = find_phrase-Sound tries st' (inc_idstore_seed-Sound p l st h) in
      ground (arith, inc_idstore_seed-Sound p l st h, more)

  pub store_credential-Sound :
      (sender : Address) (args : StoreArgs) (st : LedgerStorage S)
      → Sound p st
      → Sound p (store_credential p dict is_cose_key sender args st).1
  unfolding store_credential
  store_credential-Sound sender args st h =
      let looked = find_phrase-Sound 8 st h in
      let st' = (find_phrase p dict is_cose_key 8 st).1 in
      elim (Result-cases (find_phrase p dict is_cose_key 8 st).0) [
        | inl (phrase, found) ↦ ground (
          arith,
          found,
          looked,
          store-Sound p l phrase args.address args.cred_id args.public_key st' looked,
        )
        | inr (e, failed) ↦ ground (arith, failed, looked)
      ]

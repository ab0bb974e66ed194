-- ===== src/Invariant/Multisig.antt =====
-- The methods on held transactions keep the storage sound, except for their execution.
use many_framework.Prelude.{◌⊎◌, ◌≡◌, refl, [], ◌∷◌, arith, Bytes, Option-cases, inl, inr}
use mathlib.Core.Path.{subst}
use many_framework.Types.{
  Address, Value, put, Batch, multisig, ok, err, deserialization_error, MultisigTransactionStorage,
  MultisigTransactionState, Transaction, SubmitOptions, SetDefaultsArgs,
}
use many_framework.Platform.{Platform, IsPlatform}
use many_framework.Storage.State.{LedgerStorage}
use many_framework.Storage.Keys.{key_for_multisig_transaction}
use many_framework.Storage.Multisig.{
  as_multisig, disable, commit_multisig_transaction, get_multisig_info, get_enabled, get_holder,
  set_multisig_defaults, create_multisig_transaction, revoke_multisig, disable_multisig_transaction,
  withdraw_multisig,
}
use many_framework.Invariant.Sound.{
  Sound, SoundValue, SoundOption, IsWellFormed, apply-Sound, maybe_commit-Sound, log_event-Sound,
  new_event_id-Sound,
}
use many_framework.Invariant.Accounts.{commit_account-Sound, get_account-own, get_account_same}

multisig_cases :
    (v : Value)
    → ((t : MultisigTransactionStorage) × (v ≡ multisig t))
      ⊎ (as_multisig v ≡ err deserialization_error)
multisig_cases (multisig t) = inl (t, refl)
multisig_cases _ = inr refl

module _ {S : Type 0} (p : Platform S) (l : IsPlatform p) where
  pub commit_multisig_transaction-Sound :
      (tx_id : Bytes) (t : MultisigTransactionStorage) (st : LedgerStorage S)
      → IsWellFormed t.info.transaction
      → Sound p st
      → Sound p (commit_multisig_transaction p tx_id t st).1
  unfolding commit_multisig_transaction
  commit_multisig_transaction-Sound tx_id t st formed h =
      let b : Batch = (key_for_multisig_transaction tx_id, put (multisig t)) ∷ [] in
      let done = apply-Sound p l b st (formed, tt) h in grind (arith, maybe_commit-Sound p l)

  as_multisig-IsWellFormed :
      (k : Bytes) (v : Value) (t : MultisigTransactionStorage)
      → SoundValue p k v
      → as_multisig v ≡ ok t
      → IsWellFormed t.info.transaction
  as_multisig-IsWellFormed k v t h e = elim (multisig_cases v) [
    | inl (u, found) ↦
        let same : u ≡ t = ground (arith, found, e) in
        subst (λ x. IsWellFormed x.info.transaction) same (subst (λ x. SoundValue p k x) found h)
    | inr refused ↦ absurd (cc)
  ]

  -- The transaction that a held one carries is well formed.
  pub get_multisig_info-formed :
      (tx_id : Bytes) (st : LedgerStorage S) (t : MultisigTransactionStorage)
      → Sound p st
      → (get_multisig_info p tx_id st).0 ≡ ok t
      → IsWellFormed t.info.transaction
  unfolding get_multisig_info
  get_multisig_info-formed tx_id st t h e =
      let k = key_for_multisig_transaction tx_id in
      elim (Option-cases (p.get st.persistent_store k)) [
        | inl none_there ↦ absurd (ground (arith, none_there))
        | inr (v, found) ↦
            as_multisig-IsWellFormed k v t (subst (λ o. SoundOption p k o) found (h.at k))
              (ground (arith, found))
      ]

  get_multisig_info_same :
      (tx_id : Bytes) (st : LedgerStorage S) → (get_multisig_info p tx_id st).1 ≡ st
  unfolding get_multisig_info
  get_multisig_info_same tx_id st = ground arith

  pub get_enabled_same : (tx_id : Bytes) (st : LedgerStorage S) → (get_enabled p tx_id st).1 ≡ st
  unfolding get_enabled
  get_enabled_same tx_id st = ground (arith, get_multisig_info_same tx_id st)

  pub get_enabled-formed :
      (tx_id : Bytes) (st : LedgerStorage S) (t : MultisigTransactionStorage)
      → Sound p st
      → (get_enabled p tx_id st).0 ≡ ok t
      → IsWellFormed t.info.transaction
  unfolding get_enabled
  get_enabled-formed tx_id st t h e = grind (arith, get_multisig_info-formed tx_id st t h)

  pub get_holder_same :
      (t : MultisigTransactionStorage) (st : LedgerStorage S) → (get_holder p t st).1 ≡ st
  unfolding get_holder
  get_holder_same t st = ground (arith, get_account_same p l t.account st)

  pub disable_multisig_transaction-Sound :
      (tx_id : Bytes) (state : MultisigTransactionState) (st : LedgerStorage S)
      → Sound p st
      → Sound p (disable_multisig_transaction p tx_id state st).1
  unfolding disable_multisig_transaction commit_multisig_transaction
  disable_multisig_transaction-Sound tx_id state st h = grind (
    arith,
    get_enabled_same tx_id st,
    get_enabled-formed tx_id st,
    λ (t : MultisigTransactionStorage).
        commit_multisig_transaction-Sound tx_id (disable state t) st,
  )

  pub withdraw_multisig-Sound :
      (sender : Address) (tx_id : Bytes) (st : LedgerStorage S)
      → Sound p st
      → Sound p (withdraw_multisig p sender tx_id st).1
  unfolding withdraw_multisig
  withdraw_multisig-Sound sender tx_id st h = grind (
    arith,
    get_enabled_same tx_id st,
    get_holder_same,
    disable_multisig_transaction-Sound,
    log_event-Sound p l,
  )

  pub revoke_multisig-Sound :
      (sender : Address) (tx_id : Bytes) (st : LedgerStorage S)
      → Sound p st
      → Sound p (revoke_multisig p sender tx_id st).1
  unfolding revoke_multisig
  revoke_multisig-Sound sender tx_id st h = grind (
    arith,
    get_enabled_same tx_id st,
    get_enabled-formed tx_id st,
    get_holder_same,
    commit_multisig_transaction-Sound,
    log_event-Sound p l,
  )

  pub set_multisig_defaults-Sound :
      (sender : Address) (args : SetDefaultsArgs) (st : LedgerStorage S)
      → Sound p st
      → Sound p (set_multisig_defaults p sender args st).1
  unfolding set_multisig_defaults
  set_multisig_defaults-Sound sender args st h = grind (
    arith,
    get_account_same p l args.account st,
    get_account-own p l args.account st,
    commit_account-Sound p l,
    log_event-Sound p l,
    l.has_role_lem,
  )

  pub create_multisig_transaction-Sound :
      (sender : Address) (arg : SubmitOptions) (tx : Transaction) (st : LedgerStorage S)
      → IsWellFormed tx
      → Sound p st
      → Sound p (create_multisig_transaction p sender arg tx st).1
  unfolding create_multisig_transaction
  create_multisig_transaction-Sound sender arg tx st formed h = grind (
    arith,
    new_event_id-Sound p l st,
    get_account_same p l,
    commit_multisig_transaction-Sound,
    log_event-Sound p l,
  )

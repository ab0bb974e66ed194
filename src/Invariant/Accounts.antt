-- ===== src/Invariant/Accounts.antt =====
-- The methods on accounts keep the storage sound.
use many_framework.Prelude.{
  ◌⊎◌, bytes_eq_refl, ◌≡◌, refl, true, false, Bool, some, [], ◌∷◌, arith, Option-cases, inl, inr,
}
use mathlib.Core.Path.{subst}
use many_framework.Types.{
  Address, owner, Account, account, EventInfo, SetDescriptionArgs, RolesArgs, AddFeaturesArgs,
  Value, put, Batch, ok, err, deserialization_error,
}
use many_framework.Platform.{Platform, IsPlatform}
use many_framework.Storage.State.{LedgerStorage}
use many_framework.Storage.Keys.{key_for_account, account_identity_root}
use many_framework.Storage.Accounts.{
  get_account, get_account_even_disabled, commit_account, set_up_multisig, log_if, add_new_account,
  disable_account, set_description, add_roles, remove_roles, add_features, as_account,
}
use many_framework.Storage.Accounts.Roles.{
  has_role-add_all_roles, has_role-remove_all_roles, holds_role-insert_all_roles, IsMap,
  names_owner-holds_role,
}
use many_framework.Invariant.Sound.{
  Sound, SoundOption, SoundValue, SoundValue-account, apply-Sound, maybe_commit-Sound,
  log_event-Sound,
}
use many_framework.Invariant.Storage.{get_next_subresource-Sound}

account_cases :
    (v : Value) → ((a : Account) × (v ≡ account a)) ⊎ (as_account v ≡ err deserialization_error)
account_cases (account a) = inl (a, refl)
account_cases _ = inr refl

module _ {S : Type 0} (p : Platform S) (l : IsPlatform p) where
  pub commit_account-Sound :
      (id : Address) (a : Account) (st : LedgerStorage S)
      → p.has_role a id owner ≡ true
      → Sound p st
      → Sound p (commit_account p id a st).1
  unfolding commit_account
  commit_account-Sound id a st own h =
      let b : Batch = (key_for_account p.identity id, put (account a)) ∷ [] in
      let done = apply-Sound p l b st (SoundValue-account p l id a own, tt) h in
      grind (arith, maybe_commit-Sound p l)

  log_if-Sound :
      (b : Bool) (content : EventInfo) (st : LedgerStorage S)
      → Sound p st
      → Sound p (log_if p b content st).1
  unfolding log_if
  log_if-Sound true content st h = log_event-Sound p l content st h
  log_if-Sound false content st h = h

  has_role-set_up_multisig :
      (a : Account) (id : Address)
      → p.has_role (set_up_multisig p a) id owner ≡ p.has_role a id owner
  unfolding set_up_multisig
  has_role-set_up_multisig a id = grind (arith, l.has_role_lem)

  pub add_new_account-Sound :
      (a : Account) (add_event : Bool) (st : LedgerStorage S)
      → Sound p st
      → Sound p (add_new_account p a add_event st).1
  unfolding add_new_account
  add_new_account-Sound a add_event st h = grind (
    arith,
    get_next_subresource-Sound p l account_identity_root st h,
    log_if-Sound,
    commit_account-Sound,
    has_role-set_up_multisig,
    l.has_role-add_role,
  )

  own_of :
      (id : Address) (v : Value) (a : Account)
      → SoundValue p (key_for_account p.identity id) v
      → as_account v ≡ ok a
      → p.has_role a id owner ≡ true
  own_of id v a h e = elim (account_cases v) [
    | inl (b, found) ↦ ground (
      arith,
      subst (λ x. SoundValue p (key_for_account p.identity id) x) found h id
          (bytes_eq_refl (key_for_account p.identity id)),
    )
    | inr refused ↦ absurd (cc)
  ]

  -- An account that is found owns itself.
  pub get_account_even_disabled-own :
      (id : Address) (st : LedgerStorage S) (a : Account)
      → Sound p st
      → (get_account_even_disabled p id st).0 ≡ ok (some a)
      → p.has_role a id owner ≡ true
  unfolding get_account_even_disabled
  get_account_even_disabled-own id st a h e =
      let k = key_for_account p.identity id in
      elim (Option-cases (p.get st.persistent_store k)) [
        | inl none_there ↦ absurd (ground (arith, none_there))
        | inr (v, found) ↦
            own_of id v a (subst (λ o. SoundOption p k o) found (h.at k)) (ground (arith, found))
      ]

  get_account_even_disabled_same :
      (id : Address) (st : LedgerStorage S) → (get_account_even_disabled p id st).1 ≡ st
  unfolding get_account_even_disabled
  get_account_even_disabled_same id st = ground arith

  pub get_account_same : (id : Address) (st : LedgerStorage S) → (get_account p id st).1 ≡ st
  unfolding get_account
  get_account_same id st = grind (arith, get_account_even_disabled_same)

  pub get_account-own :
      (id : Address) (st : LedgerStorage S) (a : Account)
      → Sound p st
      → (get_account p id st).0 ≡ ok (some a)
      → p.has_role a id owner ≡ true
  unfolding get_account
  get_account-own id st a h e = grind (arith, get_account_even_disabled-own id st a h)

  pub disable_account-Sound :
      (id : Address) (st : LedgerStorage S) → Sound p st → Sound p (disable_account p id st).1
  unfolding disable_account
  disable_account-Sound id st h = grind (
    arith,
    get_account_even_disabled-own id st,
    get_account_even_disabled_same id st,
    commit_account-Sound,
    log_event-Sound p l,
    maybe_commit-Sound p l,
    l.has_role_lem,
  )

  pub set_description-Sound :
      (a : Account) (args : SetDescriptionArgs) (st : LedgerStorage S)
      → p.has_role a args.account owner ≡ true
      → Sound p st
      → Sound p (set_description p a args st).1
  unfolding set_description
  set_description-Sound a args st own h =
      grind (arith, commit_account-Sound, log_event-Sound p l, l.has_role_lem)

  pub add_roles-Sound :
      (a : Account) (args : RolesArgs) (st : LedgerStorage S)
      → p.has_role a args.account owner ≡ true
      → Sound p st
      → Sound p (add_roles p a args st).1
  unfolding add_roles
  add_roles-Sound a args st own h = grind (
    arith,
    commit_account-Sound,
    log_event-Sound p l,
    has_role-add_all_roles p l args.account owner args.roles a,
  )

  pub remove_roles-Sound :
      (a : Account) (args : RolesArgs) (st : LedgerStorage S)
      → IsMap args.roles
      → p.has_role a args.account owner ≡ true
      → Sound p st
      → Sound p (remove_roles p a args st).1
  unfolding remove_roles
  remove_roles-Sound a args st map own h = grind (
    arith,
    commit_account-Sound,
    log_event-Sound p l,
    has_role-remove_all_roles p l args.account owner args.roles a,
    names_owner-holds_role args.account args.roles map,
  )

  pub add_features-Sound :
      (a : Account) (args : AddFeaturesArgs) (st : LedgerStorage S)
      → p.has_role a args.account owner ≡ true
      → Sound p st
      → Sound p (add_features p a args st).1
  unfolding add_features
  add_features-Sound a args st own h = grind (
    arith,
    commit_account-Sound,
    log_event-Sound p l,
    l.has_role_lem,
    holds_role-insert_all_roles,
  )

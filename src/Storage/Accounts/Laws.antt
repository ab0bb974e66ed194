-- ===== src/Storage/Accounts/Laws.antt =====
-- What describing an account and adding and removing its roles store.
use many_framework.Prelude.{
  ◌≡◌, ◌≢◌, refl, true, false, some, [], ◌∷◌, Bytes, bytes_eq, ◌==◌, ==_iff, ◌||◌, not,
  if◌then◌else◌, arith, ◌⊎◌, inl, inr, ◌&&◌, Bool-cases,
}
use many_framework.Types.{
  Address, Account, Role, owner, account, put, EventInfo, ok, err, RolesArgs, SetDescriptionArgs,
  account_must_own_itself,
}
use many_framework.Platform.{Platform, IsPlatform, holds_role}
use many_framework.Storage.State.{LedgerStorage, ◌>>◌}
use many_framework.Storage.Keys.{key_for_account}
use many_framework.Storage.Keys.Distinct.{key_for_account_eq}
use many_framework.Storage.Basic.Laws.{
  written, committed, value, apply_sorted, value-written, value-committed, maybe_commit_lem,
}
use many_framework.Storage.Event.{log_event}
use many_framework.Storage.Event.Laws.{logged, log_event_lem, value-logged_other}
use many_framework.Storage.Accounts.{
  commit_account, set_description, add_roles, add_all_roles, remove_roles, remove_all_roles,
  names_owner,
}
use many_framework.Storage.Accounts.Roles.{has_role-add_all_roles, has_role-remove_all_roles}

module _ {S : Type 0} (p : Platform S) where
  -- The storage after an account is committed.
  unfoldable pub saved : Address → Account → LedgerStorage S → LedgerStorage S
  saved id a st = committed p (written p ((key_for_account p.identity id, put (account a)) ∷ []) st)

  -- The account stored for an address.
  abbrev pub Stored : LedgerStorage S → Address → Account → Type 0
  Stored st id a = value p st (key_for_account p.identity id) ≡ some (account a)

  -- Every stored account gives itself the owner role.
  abbrev pub OwnsItself : LedgerStorage S → Type 0
  OwnsItself st = (id : Address) (a : Account) → Stored st id a → p.has_role a id owner ≡ true

module _ {S : Type 0} (p : Platform S) (l : IsPlatform p) where
  pub commit_account_lem :
      (id : Address) (a : Account) (st : LedgerStorage S)
      → commit_account p id a st ≡ (ok tt, saved p id a st)
  unfolding commit_account saved
  commit_account_lem id a st = ground (
    arith,
    apply_sorted p l ((key_for_account p.identity id, put (account a)) ∷ []) st refl,
    maybe_commit_lem p (written p ((key_for_account p.identity id, put (account a)) ∷ []) st),
  )

  pub value-saved :
      (id : Address) (a : Account) (st : LedgerStorage S) (k : Bytes)
      → value p (saved p id a st) k
        ≡ (if bytes_eq (key_for_account p.identity id) k then some (account a) else value p st k)
  unfolding saved
  value-saved id a st k = ground (
    arith,
    value-committed p l (written p ((key_for_account p.identity id, put (account a)) ∷ []) st) k,
    value-written p l ((key_for_account p.identity id, put (account a)) ∷ []) st k refl,
  )

  value_account-saved :
      (id j : Address) (a : Account) (st : LedgerStorage S)
      → value p (saved p id a st) (key_for_account p.identity j)
        ≡ (if id == j then some (account a) else value p st (key_for_account p.identity j))
  value_account-saved id j a st = ground (
    arith,
    value-saved id a st (key_for_account p.identity j),
    key_for_account_eq p.identity l.is_identity id j,
  )

  value_account-logged :
      (content : EventInfo) (j : Address) (st : LedgerStorage S)
      → value p (logged p content st) (key_for_account p.identity j)
        ≡ value p st (key_for_account p.identity j)
  unfolding key_for_account
  value_account-logged content j st =
      value-logged_other p l content st (key_for_account p.identity j) refl

  pub saved-OwnsItself :
      (id : Address) (a : Account) (st : LedgerStorage S)
      → p.has_role a id owner ≡ true
      → OwnsItself p st
      → OwnsItself p (saved p id a st)
  saved-OwnsItself id a st h own j b e =
      ground (arith, own j b, value_account-saved id j a st, ==_iff id j)

  pub logged-OwnsItself :
      (content : EventInfo) (st : LedgerStorage S)
      → OwnsItself p st
      → OwnsItself p (logged p content st)
  logged-OwnsItself content st own j b e =
      ground (arith, own j b, value_account-logged content j st)

  logged_saved :
      (content : EventInfo) (id : Address) (a : Account) (st : LedgerStorage S)
      → (log_event p content >> commit_account p id a) st
        ≡ (ok tt, saved p id a (logged p content st))
  logged_saved content id a st =
      ground (arith, log_event_lem p l content st, commit_account_lem id a (logged p content st))

  pub add_roles_eq :
      (a : Account) (args : RolesArgs) (st : LedgerStorage S)
      → add_roles p a args st ≡ (
        ok tt,
        saved p args.account
            (add_all_roles p args.roles a)
            (logged p (EventInfo.account_add_roles args.account args.roles) st),
      )
  unfolding add_roles
  add_roles_eq a args st = logged_saved _ args.account (add_all_roles p args.roles a) st

  pub set_description_eq :
      (a : Account) (args : SetDescriptionArgs) (st : LedgerStorage S)
      → set_description p a args st ≡ (
        ok tt,
        saved p args.account
            (record a { description = some args.description })
            (logged p (EventInfo.account_set_description args.account args.description) st),
      )
  unfolding set_description
  set_description_eq a args st = logged_saved _ args.account _ st

  pub remove_roles_eq :
      (a : Account) (args : RolesArgs) (st : LedgerStorage S)
      → names_owner args.account args.roles ≡ false
      → remove_roles p a args st ≡ (
        ok tt,
        saved p args.account
            (remove_all_roles p args.roles a)
            (logged p (EventInfo.account_remove_roles args.account args.roles) st),
      )
  unfolding remove_roles
  remove_roles_eq a args st h = ground (
    arith,
    logged_saved (EventInfo.account_remove_roles args.account args.roles) args.account
        (remove_all_roles p args.roles a) st,
  )

  pub remove_roles_refused :
      (a : Account) (args : RolesArgs) (st : LedgerStorage S)
      → names_owner args.account args.roles ≡ true
      → remove_roles p a args st ≡ (err account_must_own_itself, st)
  unfolding remove_roles
  remove_roles_refused a args st h = ground arith

  -- What a saved account is, beside the others.
  stored-logged_saved :
      (content : EventInfo) (id j : Address) (a : Account) (st : LedgerStorage S)
      → value p (saved p id a (logged p content st)) (key_for_account p.identity j)
        ≡ (if id == j then some (account a) else value p st (key_for_account p.identity j))
  stored-logged_saved content id j a st =
      rw (value_account-saved id j a (logged p content st), value_account-logged content j st)

  -- Removing roles is refused, with nothing changed, exactly when the arguments name the owner role
  -- of the account itself. Otherwise the account stored has the roles that the given one had less
  -- those named, and no other account is touched.
  pub remove_roles_lem :
      (a : Account) (args : RolesArgs) (st : LedgerStorage S)
      → let after = remove_roles p a args st in
        ((names_owner args.account args.roles ≡ true) × (after ≡ (err account_must_own_itself, st)))
        ⊎ ((names_owner args.account args.roles ≡ false)
            × (after.0 ≡ ok tt)
            × Stored p after.1 args.account (remove_all_roles p args.roles a)
            × ((i : Address) (r : Role)
                → p.has_role (remove_all_roles p args.roles a) i r
                  ≡ (not (holds_role args.roles i r) && p.has_role a i r))
            × ((j : Address)
                → j ≢ args.account
                → value p after.1 (key_for_account p.identity j)
                  ≡ value p st (key_for_account p.identity j)))
  remove_roles_lem a args st = elim (Bool-cases (names_owner args.account args.roles)) [
    | inl named ↦ inl (named, remove_roles_refused a args st named)
    | inr allowed ↦
        let content = EventInfo.account_remove_roles args.account args.roles in
        let new = remove_all_roles p args.roles a in
        let done = remove_roles_eq a args st allowed in
        inr (
          allowed,
          ground (arith, done),
          ground (arith, done, stored-logged_saved content args.account args.account new st),
          λ i r. has_role-remove_all_roles p l i r args.roles a,
          λ j ne. ground (
            arith,
            done,
            stored-logged_saved content args.account j new st,
            ==_iff args.account j,
          ),
        )
  ]

  -- Adding roles always succeeds: the account stored has the roles that the given one had and those
  -- named, and no other account is touched.
  pub add_roles_lem :
      (a : Account) (args : RolesArgs) (st : LedgerStorage S)
      → let after = add_roles p a args st in
        (after.0 ≡ ok tt)
        × Stored p after.1 args.account (add_all_roles p args.roles a)
        × ((i : Address) (r : Role)
            → p.has_role (add_all_roles p args.roles a) i r
              ≡ (holds_role args.roles i r || p.has_role a i r))
        × ((j : Address)
            → j ≢ args.account
            → value p after.1 (key_for_account p.identity j)
              ≡ value p st (key_for_account p.identity j))
  add_roles_lem a args st =
      let content = EventInfo.account_add_roles args.account args.roles in
      let new = add_all_roles p args.roles a in
      let done = add_roles_eq a args st in
      (
        ground (arith, done),
        ground (arith, done, stored-logged_saved content args.account args.account new st),
        λ i r. has_role-add_all_roles p l i r args.roles a,
        λ j ne.
            ground (
              arith,
              done,
              stored-logged_saved content args.account j new st,
              ==_iff args.account j,
            ),
      )

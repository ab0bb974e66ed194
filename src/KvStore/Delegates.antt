-- ===== src/KvStore/Delegates.antt =====
-- In whose name a sender acts on a key, read from a directory of accounts; and what each handler
-- answers when the sender may not act for the owner that the request names.
use many_framework.Prelude.{
  ⊤, ◌≡◌, refl, false, Option, none, some, List, [], ◌∷◌, if◌then◌else◌, arith, inl, inr,
  Bool-cases,
}
use mathlib.Core.Path.{subst}
use many_framework.Types.{
  Address, Role, owner, can_kv_store_put, can_kv_store_disable, can_kv_store_transfer, Account,
  ManyError, Result, ok, err, permission_denied, anon_alt_denied, subres_alt_unsupported,
  key_not_found, cannot_disable_empty_key,
}
use many_framework.Platform.{Platform, IsPlatform}
use many_framework.KvStore.Store.{KvStoreStorage, get_metadata}
use many_framework.Storage.Basic.Subresources.{Result-cases}
use many_framework.KvStore.Accounts.{kv_account}
use many_framework.KvStore.Handlers.{
  PutArgs, DisableArgs, TransferArgs, acting_owner, validate_alternative_owner, put_key,
  disable_key, transfer_key,
}
use many_framework.KvStore.Entries.{
  Entry, Entries, live_entry, put_entry, disable_entry, transfer_entry, Shows, Implements,
}
use many_framework.KvStore.Refinement.{kv_get_lem, put_refines}
use many_framework.KvStore.Changes.{disable_refines, transfer_refines}

-- The accounts that are enabled.
abbrev pub Directory : Type 0
Directory = Address → Option Account

abbrev and_then {ℓ} : {A B : Type ℓ} → Result A → (A → Result B) → Result B
and_then (ok a) f = f a
and_then (err e) f = err e

module _ {S : Type 0} (p : Platform S) where
  -- The storage has the accounts of the directory.
  abbrev pub HasAccounts : KvStoreStorage S → Directory → Type 0
  HasAccounts st accounts = (id : Address) → kv_account p id st ≡ (ok (accounts id), st)

  abbrev no_account : Address → ManyError
  no_account id =
      if p.is_subresource id
      then subres_alt_unsupported
      else (if p.is_anonymous id then anon_alt_denied else permission_denied)

  abbrev by_role : Result ⊤ → Address → Result Address
  by_role (ok x) id = ok id
  by_role (err e) id = err e

  -- The sender himself, or an account that gives him one of the roles.
  abbrev pub actor : Directory → Address → Option Address → List Role → Result Address
  actor accounts sender none roles = ok sender
  actor accounts sender (some id) roles = elim (accounts id) [
    | none ↦ err (no_account id)
    | some a ↦ by_role (p.needs_role a sender roles) id
  ]

  pub acting_owner_lem :
      (sender : Address) (alternative : Option Address) (roles : List Role) (st : KvStoreStorage S)
      (accounts : Directory)
      → HasAccounts st accounts
      → acting_owner p sender alternative roles st ≡ (actor accounts sender alternative roles, st)
  unfolding acting_owner validate_alternative_owner
  acting_owner_lem sender none roles st accounts h = refl
  acting_owner_lem sender (some id) roles st accounts h = ground (arith, h id)

  -- What the handlers do to the entry of their key, by a sender and for whom he asks.
  abbrev pub put_outcome : Directory → Address → PutArgs → Option Entry → Result Entry
  put_outcome accounts sender args e =
      and_then (actor accounts sender args.alternative_owner (can_kv_store_put ∷ owner ∷ []))
        (λ id. put_entry id args.value e)

  abbrev pub disable_outcome : Directory → Address → DisableArgs → Option Entry → Result Entry
  disable_outcome accounts sender args e = and_then (live_entry cannot_disable_empty_key e) (λ live.
      and_then (actor accounts sender args.alternative_owner (can_kv_store_disable ∷ owner ∷ []))
        (λ id. disable_entry id args.reason e))

  abbrev pub transfer_outcome : Directory → Address → TransferArgs → Option Entry → Result Entry
  transfer_outcome accounts sender args e = and_then (live_entry key_not_found e) (λ live.
      if p.is_anonymous args.new_owner
      then err anon_alt_denied
      else and_then
          (actor accounts sender args.alternative_owner (can_kv_store_transfer ∷ owner ∷ []))
          (λ id. transfer_entry false id args.new_owner e))

module _ {S : Type 0} (p : Platform S) (l : IsPlatform p) where
  pub put-Implements :
      (sender : Address) (args : PutArgs) (st : KvStoreStorage S) (m : Entries)
      (accounts : Directory)
      → Shows p st m
      → HasAccounts p st accounts
      → Implements p
          (put_key p sender args st)
          st
          args.key
          m
          (put_outcome p accounts sender args (m args.key))
  unfolding put_key
  put-Implements sender args st m accounts h known =
      let roles = can_kv_store_put ∷ owner ∷ [] in
      let acts = acting_owner_lem p sender args.alternative_owner roles st accounts known in
      elim (Result-cases (actor p accounts sender args.alternative_owner roles)) [
        | inl (id, who) ↦ rw who (put_refines p l sender id args st m h (ground (arith, acts, who)))
        | inr (e, refused) ↦ rw refused (ground (arith, acts, refused))
      ]

  pub disable-Implements :
      (sender : Address) (args : DisableArgs) (st : KvStoreStorage S) (m : Entries)
      (accounts : Directory)
      → Shows p st m
      → HasAccounts p st accounts
      → Implements p
          (disable_key p sender args st)
          st
          args.key
          m
          (disable_outcome p accounts sender args (m args.key))
  unfolding disable_key
  disable-Implements sender args st m accounts h known =
      let roles = can_kv_store_disable ∷ owner ∷ [] in
      let acts = acting_owner_lem p sender args.alternative_owner roles st accounts known in
      let found = kv_get_lem p l args.key st m h in
      elim (Result-cases (live_entry cannot_disable_empty_key (m args.key))) [
        | inr (e, dead) ↦ rw dead (ground (arith, found, dead))
        | inl (e, live) ↦
            rw live (elim (Result-cases (actor p accounts sender args.alternative_owner roles)) [
              | inl (id, who) ↦
                  rw who (disable_refines p l sender id args st m h (ground (arith, acts, who)))
              | inr (e, refused) ↦ rw refused (ground (arith, acts, found, live, refused))
            ])
      ]

  transfer_named :
      (sender id : Address) (args : TransferArgs) (st : KvStoreStorage S) (m : Entries)
      → Shows p st m
      → acting_owner p sender args.alternative_owner (can_kv_store_transfer ∷ owner ∷ []) st
        ≡ (ok id, st)
      → p.is_anonymous args.new_owner ≡ false
      → Implements p
          (transfer_key p sender args st)
          st
          args.key
          m
          (transfer_entry false id args.new_owner (m args.key))
  transfer_named sender id args st m h acts named =
      subst
        (λ b.
          Implements p (transfer_key p sender args st) st args.key m
            (transfer_entry b id args.new_owner (m args.key)))
        named (transfer_refines p l sender id args st m h acts)

  transfer_refused :
      (sender : Address) (args : TransferArgs) (st : KvStoreStorage S) (m : Entries)
      (accounts : Directory) (x : ManyError)
      → Shows p st m
      → HasAccounts p st accounts
      → (and_then (live_entry key_not_found (m args.key)) (λ live.
          if p.is_anonymous args.new_owner
          then err anon_alt_denied
          else actor p accounts sender args.alternative_owner (can_kv_store_transfer ∷ owner ∷ [])))
        ≡ err x
      → transfer_key p sender args st ≡ (err x, st)
  unfolding transfer_key get_metadata
  transfer_refused sender args st m accounts x h known refused =
      let roles = can_kv_store_transfer ∷ owner ∷ [] in
      let acts = acting_owner_lem p sender args.alternative_owner roles st accounts known in
      ground (arith, acts, refused, kv_get_lem p l args.key st m h, h args.key)

  pub transfer-Implements :
      (sender : Address) (args : TransferArgs) (st : KvStoreStorage S) (m : Entries)
      (accounts : Directory)
      → Shows p st m
      → HasAccounts p st accounts
      → Implements p
          (transfer_key p sender args st)
          st
          args.key
          m
          (transfer_outcome p accounts sender args (m args.key))
  transfer-Implements sender args st m accounts h known =
      let roles = can_kv_store_transfer ∷ owner ∷ [] in
      let acts = acting_owner_lem p sender args.alternative_owner roles st accounts known in
      let refused = λ (x : ManyError). transfer_refused sender args st m accounts x h known in
      elim (Result-cases (live_entry key_not_found (m args.key))) [
        | inr (x, dead) ↦ rw dead (refused x (rw dead))
        | inl (e, live) ↦ rw live (elim (Bool-cases (p.is_anonymous args.new_owner)) [
          | inl anonymous ↦ rw anonymous (refused anon_alt_denied (rw (live, anonymous)))
          | inr named ↦
              rw named (elim (Result-cases (actor p accounts sender args.alternative_owner roles)) [
                | inl (id, who) ↦
                    rw who (transfer_named sender id args st m h (ground (arith, acts, who)) named)
                | inr (x, other) ↦ rw other (refused x (rw (live, named, other)))
              ])
        ])
      ]

-- ===== src/KvStore/Ownership.antt =====
-- Requests to put, disable and transfer leave a key as it is, where none is made by who may act for
-- the key's owner.
use many_framework.Prelude.{
  ◌≡◌, true, false, Bool, Option, none, some, List, [], ◌∷◌, Bytes, bytes_eq, bytes_eq_iff, ap,
  refl, inl, inr, Option-cases, Bool-cases, ◌&&◌, ◌==◌, ==_iff, not, all, arith,
}
use many_framework.Types.{
  Address, Role, Account, owner, can_kv_store_put, can_kv_store_disable, can_kv_store_transfer,
  metadata, Result, ok,
}
use many_framework.Platform.{Platform, IsPlatform}
use many_framework.Storage.Accounts.{is_ok}
use many_framework.KvStore.Store.{KvStoreStorage, value_key, acl_key}
use many_framework.KvStore.Entries.{Entry, Entries, raw_value, Shows}
use many_framework.KvStore.Laws.{kv_value}
use many_framework.KvStore.Delegates.{
  Directory, HasAccounts, actor, put_outcome, disable_outcome, transfer_outcome,
}
use many_framework.KvStore.Handlers.{PutArgs, DisableArgs, TransferArgs}
use many_framework.Storage.Basic.Subresources.{Result-cases}
use many_framework.KvStore.Commands.{
  Command, put_command, disable_command, transfer_command, run_commands, command_outcome, settle,
  entry_command, entry_commands, run_commands_refines,
}

module _ {S : Type 0} (p : Platform S) where
  -- Whether an account gives an address one of the roles.
  abbrev gives : Option Account → Address → List Role → Bool
  gives none sender roles = false
  gives (some a) sender roles = is_ok (p.needs_role a sender roles)

  abbrev pub in_name_of : Directory → Address → Option Address → List Role → Address → Bool
  in_name_of accounts sender none roles id = sender == id
  in_name_of accounts sender (some named) roles id =
      named == id && gives (accounts named) sender roles

  -- Whether a request is made in the name of an address, by one who may.
  abbrev pub acts_for : Directory → Address → Command → Bool
  acts_for accounts id (put_command sender args) =
      in_name_of accounts sender args.alternative_owner (can_kv_store_put ∷ owner ∷ []) id
  acts_for accounts id (disable_command sender args) =
      in_name_of accounts sender args.alternative_owner (can_kv_store_disable ∷ owner ∷ []) id
  acts_for accounts id (transfer_command sender args) =
      in_name_of accounts sender args.alternative_owner (can_kv_store_transfer ∷ owner ∷ []) id

  stranger-actor :
      (accounts : Directory) (sender : Address) (alternative : Option Address) (roles : List Role)
      (id who : Address)
      → in_name_of accounts sender alternative roles id ≡ false
      → actor p accounts sender alternative roles ≡ ok who
      → (id == who) ≡ false
  stranger-actor accounts sender none roles id who other acts =
      ground (arith, ==_iff sender id, ==_iff id who)
  stranger-actor accounts sender (some named) roles id who other acts =
      elim (Option-cases (accounts named)) [
        | inl missing ↦ ground (arith, missing)
        | inr (a, found) ↦ elim (Result-cases (p.needs_role a sender roles)) [
          | inl (x, given) ↦ ground (arith, found, given, ==_iff named id, ==_iff id who)
          | inr (x, refused) ↦ ground (arith, found, refused)
        ]
      ]

  put-stranger :
      (accounts : Directory) (id : Address) (args : PutArgs) (e : Entry)
      → acts_for accounts e.meta.owner (put_command id args) ≡ false
      → is_ok (put_outcome p accounts id args (some e)) ≡ false
  put-stranger accounts id args e other =
      let roles = can_kv_store_put ∷ owner ∷ [] in
      elim (Result-cases (actor p accounts id args.alternative_owner roles)) [
        | inl (who, acts) ↦ rw acts (
            ground (
              arith,
              stranger-actor accounts id args.alternative_owner roles e.meta.owner who other acts,
            ))
        | inr (x, refused) ↦ rw refused refl
      ]

  disable-stranger :
      (accounts : Directory) (id : Address) (args : DisableArgs) (e : Entry)
      → acts_for accounts e.meta.owner (disable_command id args) ≡ false
      → is_ok (disable_outcome p accounts id args (some e)) ≡ false
  disable-stranger accounts id args e other =
      let roles = can_kv_store_disable ∷ owner ∷ [] in
      elim (Result-cases (actor p accounts id args.alternative_owner roles)) [
        | inl (who, acts) ↦ rw acts (
            ground (
              arith,
              stranger-actor accounts id args.alternative_owner roles e.meta.owner who other acts,
            ))
        | inr (x, refused) ↦ rw refused (ground arith)
      ]

  transfer-stranger :
      (accounts : Directory) (id : Address) (args : TransferArgs) (e : Entry)
      → acts_for accounts e.meta.owner (transfer_command id args) ≡ false
      → is_ok (transfer_outcome p accounts id args (some e)) ≡ false
  transfer-stranger accounts id args e other =
      let roles = can_kv_store_transfer ∷ owner ∷ [] in
      elim (Result-cases (actor p accounts id args.alternative_owner roles)) [
        | inl (who, acts) ↦ rw acts (
            ground (
              arith,
              stranger-actor accounts id args.alternative_owner roles e.meta.owner who other acts,
            ))
        | inr (x, refused) ↦ rw refused (ground arith)
      ]

  -- An outcome that a key's entry refuses leaves the entry.
  settle-refused :
      (at key : Bytes) (r : Option Entry → Result Entry) (m : Entries) (e : Entry)
      → m key ≡ some e
      → is_ok (r (some e)) ≡ false
      → settle at (r (m at)) m key ≡ some e
  settle-refused at key r m e here refused = elim (Result-cases (r (m at))) [
    | inr (x, failed) ↦ rw failed here
    | inl (new, made) ↦ rw made (elim (Bool-cases (bytes_eq at key)) [
      | inl same ↦
          let found = ap (λ k. is_ok (r (m k))) ((bytes_eq_iff at key).0 same) in
          ground (arith, found, ap (λ x. is_ok (r x)) here, ap is_ok made)
      | inr differ ↦ ground (arith, here, differ)
    ])
  ]

  stranger_command :
      (accounts : Directory) (c : Command) (m : Entries) (key : Bytes) (e : Entry)
      → m key ≡ some e
      → acts_for accounts e.meta.owner c ≡ false
      → entry_command p accounts c m key ≡ some e
  unfolding command_outcome
  stranger_command accounts (put_command id args) m key e here other =
      settle-refused args.key key (put_outcome p accounts id args) m e here
        (put-stranger accounts id args e other)
  stranger_command accounts (disable_command id args) m key e here other =
      settle-refused args.key key (disable_outcome p accounts id args) m e here
        (disable-stranger accounts id args e other)
  stranger_command accounts (transfer_command id args) m key e here other =
      settle-refused args.key key (transfer_outcome p accounts id args) m e here
        (transfer-stranger accounts id args e other)

  stranger_commands :
      (accounts : Directory) (cs : List Command) (m : Entries) (key : Bytes) (e : Entry)
      → m key ≡ some e
      → all (λ c. not (acts_for accounts e.meta.owner c)) cs ≡ true
      → (entry_commands p accounts cs m).1 key ≡ some e
  unfolding entry_commands
  stranger_commands accounts [] m key e here others = here
  stranger_commands accounts (c ∷ cs) m key e here others =
      stranger_commands accounts cs (entry_command p accounts c m) key e
        (stranger_command accounts c m key e here (ground arith)) (ground arith)

module _ {S : Type 0} (p : Platform S) (l : IsPlatform p) where
  -- Where the storage holds entries and has the accounts of a directory: requests to put, disable and
  -- transfer, in any number and about any keys, leave a key's metadata and its contents as they were
  -- if none is made in the name of the key's owner by the owner himself or by one to whom the owner,
  -- as an account of the directory, gives the request's role or that of an owner.
  pub strangers_change_nothing :
      (accounts : Directory) (cs : List Command) (st : KvStoreStorage S) (m : Entries) (key : Bytes)
      (e : Entry)
      → Shows p st m
      → HasAccounts p st accounts
      → m key ≡ some e
      → all (λ c. not (acts_for p accounts e.meta.owner c)) cs ≡ true
      → let after = (run_commands p cs st).1 in
        (kv_value p after (acl_key key) ≡ some (metadata e.meta))
        × (kv_value p after (value_key key) ≡ raw_value e.contents)
  strangers_change_nothing accounts cs st m key e h known here others =
      let same = stranger_commands p accounts cs m key e here others in
      let shown = (run_commands_refines p l accounts cs st m h known).1 key in
      (ground (arith, same, shown), ground (arith, same, shown))

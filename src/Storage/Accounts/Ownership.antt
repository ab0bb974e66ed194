-- ===== src/Storage/Accounts/Ownership.antt =====
-- Adding and removing roles keeps that every stored account owns itself.
use many_framework.Prelude.{Bool-cases, inl, inr, arith}
use many_framework.Types.{Account, owner, RolesArgs, EventInfo}
use many_framework.Platform.{Platform, IsPlatform}
use many_framework.Storage.State.{LedgerStorage}
use many_framework.Storage.Accounts.{
  add_roles, remove_roles, names_owner, add_all_roles, remove_all_roles,
}
use many_framework.Storage.Accounts.Roles.{
  has_role-add_all_roles, has_role-remove_all_roles, IsMap, names_owner-holds_role,
}
use many_framework.Storage.Accounts.Laws.{
  Stored, OwnsItself, saved-OwnsItself, logged-OwnsItself, add_roles_eq, remove_roles_eq,
  remove_roles_refused,
}

module _ {S : Type 0} (p : Platform S) (l : IsPlatform p) where
  -- If every stored account gives itself the owner role, and `add_roles` is given the account that is
  -- stored, then every stored account gives itself the owner role afterwards.
  pub add_roles-OwnsItself :
      (a : Account) (args : RolesArgs) (st : LedgerStorage S)
      → Stored p st args.account a
      → OwnsItself p st
      → OwnsItself p (add_roles p a args st).1
  add_roles-OwnsItself a args st stored own =
      let content = EventInfo.account_add_roles args.account args.roles in
      let new = add_all_roles p args.roles a in
      rw (add_roles_eq p l a args st) (
        saved-OwnsItself p l args.account new _
          (ground (
            arith,
            has_role-add_all_roles p l args.account owner args.roles a,
            own args.account a stored,
          ))
          (logged-OwnsItself p l content st own))

  -- If every stored account gives itself the owner role, and `remove_roles` is given the account that
  -- is stored and roles in which no address has two entries, then every stored account gives itself
  -- the owner role afterwards, whether the removal was refused or not.
  pub remove_roles-OwnsItself :
      (a : Account) (args : RolesArgs) (st : LedgerStorage S)
      → IsMap args.roles
      → Stored p st args.account a
      → OwnsItself p st
      → OwnsItself p (remove_roles p a args st).1
  remove_roles-OwnsItself a args st map stored own =
      elim (Bool-cases (names_owner args.account args.roles)) [
        | inl named ↦ rw (remove_roles_refused p l a args st named) own
        | inr allowed ↦
            let content = EventInfo.account_remove_roles args.account args.roles in
            let new = remove_all_roles p args.roles a in
            rw (remove_roles_eq p l a args st allowed) (
              saved-OwnsItself p l args.account new _
                (ground (
                  arith,
                  has_role-remove_all_roles p l args.account owner args.roles a,
                  names_owner-holds_role args.account args.roles map,
                  own args.account a stored,
                ))
                (logged-OwnsItself p l content st own))
      ]

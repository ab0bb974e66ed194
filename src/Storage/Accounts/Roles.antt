-- ===== src/Storage/Accounts/Roles.antt =====
-- Which roles an account gives after roles are added, removed or inserted.
use many_framework.Prelude.{
  ◌≡◌, refl, true, false, List, [], ◌∷◌, ◌==◌, ==_iff, ◌&&◌, ◌||◌, any, not, arith,
}
use many_framework.Types.{Address, Role, role_eq, owner, RoleMap, Account}
use many_framework.Platform.{Platform, IsPlatform, holds_role}
use many_framework.Storage.Accounts.{
  add_each_role, add_all_roles, remove_each_role, remove_all_roles, insert_role, insert_each_role,
  insert_all_roles, names_owner,
}

module _ {S : Type 0} (p : Platform S) (l : IsPlatform p) where
  has_role-add_each_role :
      (id j : Address) (q : Role) (rs : List Role) (a : Account)
      → p.has_role (add_each_role p id rs a) j q
        ≡ (id == j && any (λ r. role_eq r q) rs || p.has_role a j q)
  unfolding add_each_role
  has_role-add_each_role id j q [] a = ground arith
  has_role-add_each_role id j q (r ∷ rs) a =
      ground (
        arith,
        has_role-add_each_role id j q rs (p.add_role a id r),
        l.has_role-add_role a id j r q,
      )

  pub has_role-add_all_roles :
      (j : Address) (q : Role) (m : RoleMap) (a : Account)
      → p.has_role (add_all_roles p m a) j q ≡ (holds_role m j q || p.has_role a j q)
  unfolding add_all_roles
  has_role-add_all_roles j q [] a = refl
  has_role-add_all_roles j q ((id, rs) ∷ m) a = ground (
    arith,
    has_role-add_all_roles j q m (add_each_role p id rs a),
    has_role-add_each_role id j q rs a,
  )

  has_role-remove_each_role :
      (id j : Address) (q : Role) (rs : List Role) (a : Account)
      → p.has_role (remove_each_role p id rs a) j q
        ≡ (not (id == j && any (λ r. role_eq r q) rs) && p.has_role a j q)
  unfolding remove_each_role
  has_role-remove_each_role id j q [] a = ground arith
  has_role-remove_each_role id j q (r ∷ rs) a = ground (
    arith,
    has_role-remove_each_role id j q rs (p.remove_role a id r),
    l.has_role-remove_role a id j r q,
  )

  pub has_role-remove_all_roles :
      (j : Address) (q : Role) (m : RoleMap) (a : Account)
      → p.has_role (remove_all_roles p m a) j q ≡ (not (holds_role m j q) && p.has_role a j q)
  unfolding remove_all_roles
  has_role-remove_all_roles j q [] a = refl
  has_role-remove_all_roles j q ((id, rs) ∷ m) a = ground (
    arith,
    has_role-remove_all_roles j q m (remove_each_role p id rs a),
    has_role-remove_each_role id j q rs a,
  )

-- No address has two entries.
abbrev pub IsMap : RoleMap → Type 0
IsMap [] = Unit {0}
IsMap ((id, rs) ∷ m) = (any (λ e. e.0 == id) m ≡ false) × IsMap m

any-role_eq : (q : Role) (rs : List Role) → any (λ r. role_eq r q) rs ≡ any (role_eq q) rs
any-role_eq q [] = refl
any-role_eq q (r ∷ rs) = ground (arith, any-role_eq q rs)

holds_role-absent :
    (id : Address) (q : Role) (m : RoleMap)
    → any (λ e. e.0 == id) m ≡ false
    → holds_role m id q ≡ false
holds_role-absent id q [] h = refl
holds_role-absent id q ((j, rs) ∷ m) h = ground (arith, holds_role-absent id q m)

-- In a map the guard of `remove_roles` sees every grant of the owner role to an address.
pub names_owner-holds_role :
    (id : Address) (m : RoleMap) → IsMap m → names_owner id m ≡ holds_role m id owner
names_owner-holds_role id [] h = refl
names_owner-holds_role id ((j, rs) ∷ m) h = ground (
  arith,
  names_owner-holds_role id m h.1,
  any-role_eq owner rs,
  holds_role-absent id owner m,
  ==_iff j id,
)

-- A role that is in the list already makes no difference.
any-present :
    (r q : Role) (rs : List Role)
    → any (role_eq r) rs ≡ true
    → role_eq r q ≡ true
    → any (λ x. role_eq x q) rs ≡ true
any-present r q [] h e = cc
any-present r q (x ∷ rs) h e = ground (arith, any-present r q rs)

holds_role-insert_role :
    (i j : Address) (r q : Role) (m : RoleMap)
    → holds_role (insert_role i r m) j q ≡ (i == j && role_eq r q || holds_role m j q)
unfolding insert_role
holds_role-insert_role i j r q [] = ground arith
holds_role-insert_role i j r q ((k, rs) ∷ m) =
    ground (arith, holds_role-insert_role i j r q m, any-present r q rs, ==_iff k i, ==_iff k j)

holds_role-insert_each_role :
    (i j : Address) (q : Role) (rs : List Role) (m : RoleMap)
    → holds_role (insert_each_role i rs m) j q
      ≡ (i == j && any (λ r. role_eq r q) rs || holds_role m j q)
unfolding insert_each_role
holds_role-insert_each_role i j q [] m = ground arith
holds_role-insert_each_role i j q (r ∷ rs) m = ground (
  arith,
  holds_role-insert_each_role i j q rs (insert_role i r m),
  holds_role-insert_role i j r q m,
)

pub holds_role-insert_all_roles :
    (j : Address) (q : Role) (new m : RoleMap)
    → holds_role (insert_all_roles new m) j q ≡ (holds_role new j q || holds_role m j q)
unfolding insert_all_roles
holds_role-insert_all_roles j q [] m = refl
holds_role-insert_all_roles j q ((i, rs) ∷ new) m = ground (
  arith,
  holds_role-insert_all_roles j q new (insert_each_role i rs m),
  holds_role-insert_each_role i j q rs m,
)

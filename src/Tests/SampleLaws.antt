-- ===== src/Tests/SampleLaws.antt =====
-- The sample platform obeys the documented laws.
use many_framework.Prelude.{
  ◌≡◌, refl, Option, none, List, [], ◌∷◌, ◌++◌, Bytes, bytes_eq, bytes_eq_iff, bytes_eq_refl,
  take-append, any, ◌==◌, ==_iff, ◌&&◌, not, arith, if◌then◌else◌,
}
use many_framework.Types.{Address, Role, role_eq, RoleMap, Value, put, delete, Batch}
use many_framework.Platform.{
  batch_get, read, be_number, holds_role, IsMerk, IsIdentity, IsAccountOps, IsEventIds, IsPlatform,
}
use many_framework.Tests.Sample.{
  without, live, under, merk, identity, drop_role, revoke_role, accounts, event_ids, platform,
}

batch_get-append :
    (b c : Batch) (k : Bytes) (old : Option Value)
    → batch_get (b ++ c) k old ≡ batch_get b k (batch_get c k old)
batch_get-append [] c k old = refl
batch_get-append ((j, op) ∷ b) c k old = ground (arith, batch_get-append b c k old)

read-without :
    (j k : Bytes) (m : List (Bytes × Value))
    → read k (without j m) ≡ (if bytes_eq j k then none else read k m)
read-without j k [] = ground arith
read-without j k ((i, v) ∷ m) =
    ground (arith, read-without j k m, bytes_eq_iff i j, bytes_eq_iff j k, bytes_eq_iff i k)

read-live : (b : Batch) (k : Bytes) → read k (live b) ≡ batch_get b k none
read-live [] k = refl
read-live ((j, put v) ∷ b) k = ground (arith, read-live b k)
read-live ((j, delete) ∷ b) k = ground (arith, read-live b k, read-without j k (live b))

read-under : (p k : Bytes) (m : List (Bytes × Value)) → read (p ++ k) (under p m) ≡ read (p ++ k) m
read-under p k [] = refl
read-under p k ((j, v) ∷ m) =
    ground (arith, read-under p k m, bytes_eq_iff j (p ++ k), take-append p k, bytes_eq_refl p)

merk-IsMerk : IsMerk merk
merk-IsMerk = record {
  apply_lem = λ s b. refl;
  get-apply = λ s b k h. batch_get-append b s.working k none;
  get-commit = λ s k. refl;
  iter_range_lem = λ s low high. refl;
  iter-apply = λ s b p. refl;
  read-iter = λ s p k. rw (read-under p k) (read-live s.working (p ++ k));
}

identity-IsIdentity : IsIdentity identity
identity-IsIdentity = record { from-text = λ a. ground arith; text_lacks_slash = λ a. ground arith }

any-drop_role :
    (r q : Role) (rs : List Role)
    → any (λ x. role_eq x q) (drop_role r rs) ≡ (not (role_eq r q) && any (λ x. role_eq x q) rs)
any-drop_role r q [] = ground arith
any-drop_role r q (x ∷ rs) = ground (arith, any-drop_role r q rs)

holds_role-revoke_role :
    (i j : Address) (r q : Role) (m : RoleMap)
    → holds_role (revoke_role i r m) j q ≡ (not (i == j && role_eq r q) && holds_role m j q)
holds_role-revoke_role i j r q [] = ground arith
holds_role-revoke_role i j r q ((k, rs) ∷ m) =
    ground (arith, holds_role-revoke_role i j r q m, any-drop_role r q rs, ==_iff i k, ==_iff k j)

accounts-IsAccountOps : IsAccountOps accounts
accounts-IsAccountOps = record {
  needs_role_lem = λ a i rs. refl;
  has_role-add_role = λ a i j r q. ground arith;
  has_role-remove_role = λ a i j r q. holds_role-revoke_role i j r q a.roles;
  has_role_lem = λ a i r. refl;
  disabled-add_role = λ a i r. refl;
  disabled-remove_role = λ a i r. refl;
}

event_ids-IsEventIds : IsEventIds event_ids
unfolding be_number
event_ids-IsEventIds = record {
  number-add_id = λ i n. omega arith;
  number-from_u64 = λ n. omega arith;
}

pub platform-IsPlatform : IsPlatform platform
platform-IsPlatform = record {
  is_merk = merk-IsMerk;
  is_identity = identity-IsIdentity;
  is_accounts = accounts-IsAccountOps;
  is_event_ids = event_ids-IsEventIds;
  encode_recall_phrase_lem = λ phrase. refl;
}

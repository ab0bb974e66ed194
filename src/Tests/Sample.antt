-- ===== src/Tests/Sample.antt =====
-- A concrete platform: the store is a list of writes, an address is written as one character.
use many_framework.Prelude.{
  leb, ℕ, ◌+◌, ◌-◌, ◌*◌, ◌%◌, true, false, Option, none, some, List, [], ◌∷◌, ◌++◌, Bytes, bytes_eq,
  take, length, any, ◌==◌, if◌then◌else◌,
}
use many_framework.Types.{
  Address, Role, role_eq, owner, Feature, FeatureSet, MultisigArg, RoleMap, Value, put, delete,
  Batch, Result, ok, err, user_needs_role, attribute_not_found,
}
use many_framework.Platform.{
  Merk, Identity, AccountOps, EventIds, ExtInfoOps, Migrations, Platform, batch_get, is_sorted,
  keep_range, be_number, holds_role,
}
use many_framework.Prelude.{unwrap_or}
use many_framework.Storage.State.{LedgerStorage}

-- The writes so far, the latest first, and those that were committed.
pub record Store : Type 0 where
  pub working : Batch
  pub saved : Batch

abbrev pub without : Bytes → List (Bytes × Value) → List (Bytes × Value)
without k [] = []
without k ((j, v) ∷ m) = if bytes_eq j k then without k m else (j, v) ∷ without k m

abbrev pub live : Batch → List (Bytes × Value)
live [] = []
live ((k, put v) ∷ b) = (k, v) ∷ live b
live ((k, delete) ∷ b) = without k (live b)

abbrev pub under : Bytes → List (Bytes × Value) → List (Bytes × Value)
under p [] = []
under p ((k, v) ∷ m) = if bytes_eq (take (length p) k) p then (k, v) ∷ under p m else under p m

abbrev pub merk : Merk Store
merk = record {
  get = λ s k. batch_get s.working k none;
  apply = λ s b. if is_sorted b then some (record s { working = b ++ s.working }) else none;
  apply_unchecked = λ s b. record s { working = b ++ s.working };
  commit = λ s. record s { saved = s.working };
  root_hash = λ s. length s.working ∷ [];
  iter_prefix = λ s p. under p (live s.saved);
  iter_range = λ s low high. keep_range low high (under [] (live s.saved));
}

abbrev from_text : Bytes → Option Address
from_text [] = none
from_text (x ∷ xs) = some (x - 256)

abbrev pub identity : Identity
identity = record {
  address_text = λ a. (a + 256) ∷ [];
  address_from_text = from_text;
  address_bytes = λ a. a ∷ [];
  is_anonymous = λ a. a == 0;
  is_illegal = λ a. a == 1;
  is_subresource = λ a. leb 100 a;
  is_public_key = λ a. true;
  with_subresource_id = λ a n. some (a * 100 + n);
  subresource_id = λ a. some (a % 100);
  max_subresource_id = 99;
}

abbrev pub drop_role : Role → List Role → List Role
drop_role r [] = []
drop_role r (q ∷ qs) = if role_eq q r then drop_role r qs else q ∷ drop_role r qs

abbrev pub revoke_role : Address → Role → RoleMap → RoleMap
revoke_role i r [] = []
revoke_role i r ((j, rs) ∷ m) = (j, if i == j then drop_role r rs else rs) ∷ revoke_role i r m

abbrev find_feature : FeatureSet → ℕ → Result Feature
find_feature [] id = err attribute_not_found
find_feature (f ∷ fs) id = if f.id == id then ok f else find_feature fs id

abbrev as_multisig : Result Feature → Result MultisigArg
as_multisig (err e) = err e
as_multisig (ok f) = elim f.argument [ none ↦ err attribute_not_found | some a ↦ ok a ]

abbrev pub accounts : AccountOps
accounts = record {
  has_role = λ a i r. holds_role a.roles i r;
  needs_role =
      λ a i rs. if any (λ r. holds_role a.roles i r) rs then ok tt else err user_needs_role;
  add_role = λ a i r. record a { roles = (i, r ∷ []) ∷ a.roles };
  remove_role = λ a i r. record a { roles = revoke_role i r a.roles };
  create_account = λ sender args. record {
    description = args.description;
    roles = (sender, owner ∷ []) ∷ unwrap_or args.roles [];
    features = args.features;
    disabled = none;
  };
  has_id = λ fs id. any (λ f. f.id == id) fs;
  get_feature = find_feature;
  insert_feature = λ fs f. (any (λ g. g.id == f.id) fs, f ∷ fs);
  get_multisig = λ fs. as_multisig (find_feature fs 1);
  multisig_feature = λ a. record { id = 1; argument = some a };
  multisig_id = 1;
  account_ledger_id = 0;
  token_account_ledger_id = 3;
  account_kv_store_id = 2;
  feature_roles = λ id. [];
}

abbrev pub event_ids : EventIds
event_ids = record {
  add_id = λ i n. (be_number i + n) ∷ [];
  id_from_u64 = λ n. (n % 18_446_744_073_709_551_616) ∷ [];
}

abbrev pub ext_infos : ExtInfoOps
ext_infos = record {
  default_ext_info = record { memo = none; visual_logo = none };
  new_ext_info = record { memo = none; visual_logo = none };
  with_memo = λ e m. ok (record e { memo = some m });
  with_visual_logo = λ e m. ok (record e { visual_logo = some m });
  retain = λ e ks. ok e;
  contains_index = λ e k. ok true;
  remove_index = λ e k. ok (record { memo = none; visual_logo = none });
}

abbrev joined : List Bytes → Bytes
joined [] = []
joined (w ∷ ws) = w ++ joined ws

abbrev pub platform : Platform Store
platform = record {
  merk = merk;
  identity = identity;
  accounts = accounts;
  event_ids = event_ids;
  ext_infos = ext_infos;
  timestamp_now = λ s. 1000;
  encode_answer = λ t. [];
  encode_recall_phrase = λ phrase. 128 ∷ joined phrase;
  update_at_height = λ m s h. some (m, s);
}

abbrev pub all_active : Migrations
all_active = record { is_active = λ m. true; hotfix_at = λ m h. false }

-- A storage that holds what a batch writes.
abbrev pub storage_of : Batch → LedgerStorage Store
storage_of b = record {
  persistent_store = record { working = b; saved = b };
  blockchain = true;
  latest_tid = 7 ∷ [];
  current_time = some 500;
  current_hash = none;
  migrations = all_active;
}

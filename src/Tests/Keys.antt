-- ===== src/Tests/Keys.antt =====
-- Key-value requests on the sample platform.
use many_framework.Prelude.{
  ◌≡◌, refl, true, false, none, some, List, [], ◌∷◌, Bytes, bytes_eq, arith, ◌++◌, ◌==◌,
  if◌then◌else◌, codes,
}
use many_framework.Types.{
  Account, account, owner, can_kv_store_put, put, metadata, raw, left, right, err, key_disabled,
}
use many_framework.KvStore.Store.{KvStoreStorage, value_key, acl_key}
use many_framework.KvStore.Handlers.{PutArgs, DisableArgs, TransferArgs, transfer_key, acting_owner}
use many_framework.KvStore.Entries.{Entry, Entries, transfer_entry, Shows, Implements}
use many_framework.KvStore.Laws.{kv_value}
use many_framework.KvStore.Accounts.{kv_account, kv_account_even_disabled}
use many_framework.Storage.Keys.{key_for_account}
use many_framework.KvStore.Delegates.{Directory, HasAccounts}
use many_framework.KvStore.Commands.{
  Command, put_command, disable_command, transfer_command, run_commands, entry_commands,
  run_commands_refines,
}
use many_framework.KvStore.Changes.{transfer_refines, transfer_disabled_refused}
use many_framework.KvStore.Ownership.{strangers_change_nothing}
use many_framework.Tests.Sample.{Store, platform}
use many_framework.Tests.SampleLaws.{platform-IsPlatform}

abbrev first_key : Bytes
first_key = 1 ∷ []

abbrev second_key : Bytes
second_key = 2 ∷ []

abbrev first_entry : Entry
first_entry = record {
  meta = record { owner = 4; disabled = some (left false) };
  contents = some (9 ∷ []);
}

abbrev second_entry : Entry
second_entry = record {
  meta = record { owner = 4; disabled = some (right (codes "no")) };
  contents = some (8 ∷ []);
}

abbrev entries : Entries
entries k =
    if bytes_eq first_key k
    then some first_entry
    else (if bytes_eq second_key k then some second_entry else none)

abbrev kept : KvStoreStorage Store
kept = record {
  persistent_store = record {
    working =
        (acl_key first_key, put (metadata first_entry.meta))
        ∷ (value_key first_key, put (raw (9 ∷ [])))
        ∷ (acl_key second_key, put (metadata second_entry.meta))
        ∷ (value_key second_key, put (raw (8 ∷ [])))
        ∷ [];
    saved = [];
  };
  blockchain = true;
  latest_event_id = 7 ∷ [];
  current_time = some 500;
  current_hash = none;
  next_subresource = 0;
  root_identity = 3;
}

kept-Shows : Shows platform kept entries
unfolding acl_key value_key
kept-Shows k = (ground arith, ground arith)

abbrev put_args : PutArgs
put_args = record { key = first_key; value = 5 ∷ []; alternative_owner = none }

abbrev disable_args : DisableArgs
disable_args = record { key = first_key; alternative_owner = none; reason = none }

abbrev transfer_args : TransferArgs
transfer_args = record { key = first_key; alternative_owner = none; new_owner = 6 }

abbrev transfer_second : TransferArgs
transfer_second = record { key = second_key; alternative_owner = none; new_owner = 6 }

transfer_refines_example :
    Implements platform
      (transfer_key platform 4 transfer_args kept)
      kept
      first_key
      entries
      (transfer_entry false 4 6 (some first_entry))
unfolding acting_owner
transfer_refines_example =
    transfer_refines platform platform-IsPlatform 4 4 transfer_args kept entries kept-Shows refl

transfer_disabled_refused_example :
    transfer_key platform 4 transfer_second kept ≡ (err key_disabled, kept)
transfer_disabled_refused_example =
    transfer_disabled_refused platform platform-IsPlatform 4 transfer_second kept entries
      second_entry kept-Shows refl refl

-- The account of the owner of the first key lets 8 put keys.
abbrev shop : Account
shop = record {
  description = none;
  roles = (4, owner ∷ []) ∷ (8, can_kv_store_put ∷ []) ∷ [];
  features = [];
  disabled = none;
}

abbrev shared : KvStoreStorage Store
shared = record kept {
  persistent_store = record {
    working = (codes "/accounts/" ++ 260 ∷ [], put (account shop)) ∷ kept.persistent_store.working;
    saved = [];
  };
}

abbrev directory : Directory
directory id = if id == 4 then some shop else none

shared-Shows : Shows platform shared entries
unfolding acl_key value_key
shared-Shows k = (ground arith, ground arith)

shared-HasAccounts : HasAccounts platform shared directory
unfolding kv_account kv_account_even_disabled key_for_account
shared-HasAccounts id = ground arith

abbrev intruders : List Command
intruders =
    put_command 5 (record { key = first_key; value = 1 ∷ []; alternative_owner = none })
    ∷ disable_command 8 (record { key = first_key; alternative_owner = some 4; reason = none })
    ∷ transfer_command 5 (record { key = first_key; alternative_owner = none; new_owner = 5 })
    ∷ []

-- 8 puts the first key for its owner; then strangers, one of them for the owner without the role.
abbrev commands : List Command
commands =
    put_command 8 (record { key = first_key; value = 3 ∷ []; alternative_owner = some 4 })
    ∷ intruders

run_commands_refines_example :
    let after = run_commands platform commands shared in
    let expected = entry_commands platform directory commands entries in
    (after.0 ≡ expected.0)
    × Shows platform after.1 expected.1
    × HasAccounts platform after.1 directory
run_commands_refines_example =
    run_commands_refines platform platform-IsPlatform directory commands shared entries shared-Shows
      shared-HasAccounts

strangers_change_nothing_example :
    let after = (run_commands platform intruders shared).1 in
    (kv_value platform after (acl_key first_key) ≡ some (metadata first_entry.meta))
    × (kv_value platform after (value_key first_key) ≡ some (raw (9 ∷ [])))
strangers_change_nothing_example =
    strangers_change_nothing platform platform-IsPlatform directory intruders shared entries
      first_key first_entry shared-Shows shared-HasAccounts refl refl

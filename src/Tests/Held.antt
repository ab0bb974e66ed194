-- ===== src/Tests/Held.antt =====
-- Held transactions and accounts on the sample platform.
use many_framework.Prelude.{
  ◌≡◌, ℕ, arith, refl, true, false, none, some, [], ◌∷◌, Bytes, ◌==◌, if◌then◌else◌,
}
use many_framework.Types.{
  put, multisig, account, ok, err, Account, owner, can_multisig_submit, can_multisig_approve,
  Transaction, MultisigTransactionState, MultisigTransactionStorage, RolesArgs,
  transaction_expired_or_withdrawn, cannot_execute_transaction, out_of_fuel, address,
}
use many_framework.Storage.State.{LedgerStorage}
use many_framework.Storage.Keys.{
  key_for_account, key_for_multisig_transaction, pad_id, identity_root, key_for_event,
}
use many_framework.Storage.Basic.{apply, maybe_commit, now, get_height}
use many_framework.Storage.Event.{log_event, new_event_id, nb_events}
use many_framework.Storage.Accounts.{
  get_account, get_account_even_disabled, commit_account, set_description,
}
use many_framework.Storage.Multisig.{
  get_enabled, get_multisig_info, get_holder, count_approved, set_vote, with_votes, revoke_multisig,
  withdraw_multisig, disable_multisig_transaction,
}
use many_framework.Storage.Multisig.Execution.{
  execute_internal, attempt, execute_tx, execute_with, run_transaction, get_owned, answer,
  approve_multisig, execute_multisig,
}
use many_framework.Storage.Multisig.Laws.{Held, vote_of}
use many_framework.Storage.Multisig.Authority.{below_threshold_held}
use many_framework.Storage.Multisig.Once.{
  execute_multisig_once, approve_lem, execute_itself_never_ends,
}
use many_framework.Tests.Sample.{Store, identity, platform, storage_of}
use many_framework.Tests.SampleLaws.{platform-IsPlatform}

-- An account at the address 7, which owns itself; 2 may submit and 3 may approve.
abbrev pub shared_account : Account
shared_account = record {
  description = none;
  roles = (2, can_multisig_submit ∷ []) ∷ (3, can_multisig_approve ∷ []) ∷ (7, owner ∷ []) ∷ [];
  features = record { id = 1; argument = none } ∷ [];
  disabled = none;
}

abbrev tx_id : Bytes
tx_id = 8 ∷ []

-- A transaction that 2 submitted for the account.
abbrev held_transaction : Transaction → MultisigTransactionStorage
held_transaction tx = record {
  account = 7;
  info = record {
    legacy_memo = none;
    memo = none;
    transaction = tx;
    submitter = 2;
    approvers = (2, true) ∷ [];
    threshold = 1;
    execute_automatically = false;
    timeout = 900;
    legacy_data = none;
    state = MultisigTransactionState.pending;
  };
  creation = 400;
  disabled = false;
}

abbrev describe : Transaction
describe = Transaction.account_set_description (record { account = 7; description = 65 ∷ [] })

abbrev pub describing : MultisigTransactionStorage
describing = held_transaction describe

-- One that needs two approvals.
abbrev describing_by_two : MultisigTransactionStorage
describing_by_two = record describing { info = record describing.info { threshold = 2 } }

abbrev looping : MultisigTransactionStorage
looping = held_transaction (Transaction.multisig_execute tx_id)

abbrev storage_with : MultisigTransactionStorage → LedgerStorage Store
storage_with t = storage_of (
    (key_for_multisig_transaction tx_id, put (multisig t))
    ∷ (key_for_account identity 7, put (account shared_account))
    ∷ (identity_root, put (address 9))
    ∷ [])

execute_multisig_once_example :
    let after = (execute_multisig platform 1 2 tx_id (storage_with describing)).1 in
    (approve_multisig platform 4 3 tx_id after ≡ (err transaction_expired_or_withdrawn, after))
    × (revoke_multisig platform 3 tx_id after ≡ (err transaction_expired_or_withdrawn, after))
    × (execute_multisig platform 4 3 tx_id after ≡ (err transaction_expired_or_withdrawn, after))
    × (withdraw_multisig platform 3 tx_id after ≡ (err transaction_expired_or_withdrawn, after))
unfolding execute_multisig execute_with get_enabled get_multisig_info get_holder get_account
    get_account_even_disabled execute_internal attempt execute_tx run_transaction get_owned answer
    set_description log_event new_event_id nb_events commit_account apply maybe_commit now
    count_approved disable_multisig_transaction key_for_multisig_transaction key_for_account pad_id
    key_for_event get_height
execute_multisig_once_example =
    execute_multisig_once platform platform-IsPlatform 1 4 2 3 tx_id (storage_with describing) refl

approve_lem_example :
    let after = approve_multisig platform 4 3 tx_id (storage_with describing_by_two) in
    let votes = set_vote 3 true describing_by_two.info.approvers in
    (after.0 ≡ ok false)
    × Held platform after.1 tx_id (with_votes votes describing_by_two)
    × ((j : ℕ)
        → vote_of votes j
          ≡ (if 3 == j then some true else vote_of describing_by_two.info.approvers j))
unfolding get_holder get_account get_account_even_disabled key_for_multisig_transaction
    key_for_account pad_id
approve_lem_example =
    approve_lem platform platform-IsPlatform 4 3 tx_id describing_by_two shared_account
      (storage_with describing_by_two) refl refl refl refl refl

-- One that needs three approvals, and is then executed at once.
abbrev describing_by_three : MultisigTransactionStorage
describing_by_three = record describing {
  info = record describing.info { threshold = 3; execute_automatically = true };
}

below_threshold_held_example :
    let st = storage_with describing_by_three in
    let after = approve_multisig platform 4 3 tx_id st in
    (after.0 ≡ ok false)
    × Held platform after.1 tx_id (with_votes ((2, true) ∷ (3, true) ∷ []) describing_by_three)
    × (execute_multisig platform 4 2 tx_id st ≡ (err cannot_execute_transaction, st))
unfolding get_holder get_account get_account_even_disabled key_for_multisig_transaction
    key_for_account pad_id set_vote
below_threshold_held_example =
    below_threshold_held platform platform-IsPlatform 4 3 tx_id describing_by_three shared_account
      (storage_with describing_by_three) refl refl refl 2 refl (omega arith)

execute_itself_never_ends_example :
    execute_tx platform 1000 looping (storage_with looping)
    ≡ (err out_of_fuel, storage_with looping)
unfolding get_holder get_account get_account_even_disabled key_for_multisig_transaction
    key_for_account pad_id count_approved
execute_itself_never_ends_example =
    execute_itself_never_ends platform platform-IsPlatform 1000 tx_id looping shared_account
      (storage_with looping) refl refl refl refl refl refl

abbrev owner_of_itself : RolesArgs
owner_of_itself = record { account = 7; roles = (3, can_multisig_approve ∷ []) ∷ [] }

-- ===== src/Storage/Multisig/Execution.antt =====
-- Executing held transactions: the rest of src/many-ledger/src/storage/multisig.rs. An executed
-- transaction may itself approve or execute another one; each such call takes one unit of fuel,
-- and a call stack deeper than the fuel is the error `out_of_fuel`, which nothing catches.
use many_framework.Prelude.{
  ℕ, zero, suc, ◌+◌, Bool, true, false, none, some, [], ◌∷◌, Bytes, bytes_eq, not, ◌&&◌,
  if◌then◌else◌,
}
use many_framework.Types.{
  Address, owner, can_ledger_transact, Account, EventInfo, Result, ok, err, Timestamp, Transaction,
  Answer, empty_return, create_return, submit_return, MultisigTransactionState,
  MultisigTransactionStorage, ResponseMessage, unknown_account, out_of_fuel, panic,
  invalid_from_identity, transaction_type_unsupported, cannot_execute_transaction,
  user_cannot_approve_transaction,
}
use many_framework.Platform.{Platform, block_9400}
use many_framework.Storage.State.{Action, pure, raise, gets, lift, or_raise, raise_if, ◌>>=◌, ◌>>◌}
use many_framework.Storage.Basic.{now, get_height}
use many_framework.Storage.Event.{log_event}
use many_framework.Storage.Send.{send}
use many_framework.Storage.Accounts.{
  validate_account, get_account, add_account, disable_account, set_description, add_roles,
  remove_roles, add_features,
}
use many_framework.Storage.Multisig.{
  should_execute, set_vote, with_votes, set_multisig_defaults, create_multisig_transaction,
  get_enabled, get_holder, may_vote, may_decide, revoke_multisig, commit_multisig_transaction,
  disable_multisig_transaction, withdraw_multisig,
}

-- "241e00000001"
abbrev block_9400_tx_id : Bytes
block_9400_tx_id = 36 ∷ 30 ∷ 0 ∷ 0 ∷ 0 ∷ 1 ∷ []

abbrev block_9400_new_timestamp : Timestamp
block_9400_new_timestamp = 1_658_348_752

-- The hotfix of migration/block_9400.rs.
abbrev pub fix_block_9400 : Bool → Bytes → ResponseMessage → ResponseMessage
fix_block_9400 active tx_id r =
    if active && bytes_eq tx_id block_9400_tx_id
    then record r { timestamp = some block_9400_new_timestamp }
    else r

-- An error as a value; a panic and a call stack without end are not caught.
abbrev pub caught : Result Bytes → Result (Result Bytes)
caught (ok a) = ok (ok a)
caught (err out_of_fuel) = err out_of_fuel
caught (err panic) = err panic
caught (err e) = ok (err e)

abbrev pub executed : Bool → MultisigTransactionState
executed true = MultisigTransactionState.executed_automatically
executed false = MultisigTransactionState.executed_manually

module _ {S : Type 0} (p : Platform S) where
  unfoldable pub attempt : Action S Bytes → Action S (Result Bytes)
  attempt m st = (caught (m st).0, (m st).1)

  -- `execute_multisig_transaction_internal`, given how a transaction is run
  unfoldable pub execute_internal :
      (MultisigTransactionStorage → Action S Bytes)
      → Bytes
      → MultisigTransactionStorage
      → Bool
      → Action S ResponseMessage
  execute_internal run tx_id t automatic = do
    result ← attempt (run t)
    disable_multisig_transaction p tx_id (executed automatic)
    time ← gets (now p)
    active ← gets (λ st. st.migrations.hotfix_at block_9400 (get_height p st + 1))
    pure (
        fix_block_9400 active tx_id
          (record { from = t.account; answer = result; timestamp = some time }))

  -- The end of `approve_multisig`.
  unfoldable pub execute_if_automatic :
      (MultisigTransactionStorage → Action S Bytes)
      → Bytes
      → MultisigTransactionStorage
      → Action S Bool
  execute_if_automatic run tx_id t = elim (t.info.execute_automatically && should_execute t) [
    | false ↦ pure false
    | true ↦ execute_internal run tx_id t true >>= λ response.
        log_event p (EventInfo.multisig_execute t.account tx_id none response) >> pure true
  ]

  unfoldable pub approve_with :
      (MultisigTransactionStorage → Action S Bytes) → Address → Bytes → Action S Bool
  approve_with run sender tx_id = do
    t ← get_enabled p tx_id
    a ← get_holder p t
    raise_if (not (may_vote p a sender)) user_cannot_approve_transaction
    let voted = with_votes (set_vote sender true t.info.approvers) t
    commit_multisig_transaction p tx_id voted
    log_event p (EventInfo.multisig_approve t.account tx_id sender)
    execute_if_automatic run tx_id voted

  unfoldable pub execute_with :
      (MultisigTransactionStorage → Action S Bytes) → Address → Bytes → Action S ResponseMessage
  execute_with run sender tx_id = do
    t ← get_enabled p tx_id
    a ← get_holder p t
    raise_if (not (may_decide p a t sender)) cannot_execute_transaction
    raise_if (not (should_execute t)) cannot_execute_transaction
    response ← execute_internal run tx_id t false
    log_event p (EventInfo.multisig_execute t.account tx_id (some sender) response)
    pure response

  unfoldable pub answer : Answer → Action S Bytes
  answer a = pure (p.encode_answer a)

  -- An enabled account that the sender owns.
  unfoldable pub get_owned : Address → Address → Action S Account
  get_owned sender id = do
    found ← get_account p id
    a ← or_raise found (unknown_account id)
    lift (p.needs_role a sender (owner ∷ []))
    pure a

  -- `_execute_multisig_tx` of a transaction, in the name of the account that holds it, given how
  -- nested transactions are run
  unfoldable pub run_transaction :
      (MultisigTransactionStorage → Action S Bytes) → Address → Transaction → Action S Bytes
  run_transaction run sender (Transaction.send args) = do
    from ← or_raise args.from invalid_from_identity
    found ← get_account p from
    a ← or_raise found (unknown_account from)
    lift (p.needs_role a sender (can_ledger_transact ∷ owner ∷ []))
    send p from args.to args.symbol args.amount args.memo
    answer empty_return
  run_transaction run sender (Transaction.account_create args) = do
    let a = p.create_account sender args
    lift (validate_account p a)
    id ← add_account p a
    answer (create_return id)
  run_transaction run sender (Transaction.account_disable id) = do
    a ← get_owned sender id
    disable_account p id
    answer empty_return
  run_transaction run sender (Transaction.account_set_description args) = do
    a ← get_owned sender args.account
    set_description p a args
    answer empty_return
  run_transaction run sender (Transaction.account_add_roles args) = do
    a ← get_owned sender args.account
    add_roles p a args
    answer empty_return
  run_transaction run sender (Transaction.account_remove_roles args) = do
    a ← get_owned sender args.account
    remove_roles p a args
    answer empty_return
  run_transaction run sender (Transaction.account_add_features args) = do
    a ← get_owned sender args.account
    add_features p a args
    answer empty_return
  run_transaction run sender (Transaction.multisig_submit arg tx) = do
    token ← create_multisig_transaction p sender arg tx
    answer (submit_return token)
  run_transaction run sender (Transaction.multisig_set_defaults args) = do
    set_multisig_defaults p sender args
    answer empty_return
  run_transaction run sender (Transaction.multisig_approve tx_id) = do
    executed ← approve_with run sender tx_id
    answer empty_return
  run_transaction run sender (Transaction.multisig_revoke tx_id) = do
    revoked ← revoke_multisig p sender tx_id
    answer empty_return
  run_transaction run sender (Transaction.multisig_execute tx_id) = do
    response ← execute_with run sender tx_id
    answer empty_return
  run_transaction run sender (Transaction.multisig_withdraw tx_id) = do
    withdraw_multisig p sender tx_id
    answer empty_return
  run_transaction run sender (Transaction.unsupported n) = raise transaction_type_unsupported

  -- `_execute_multisig_tx` on fuel
  unfoldable pub execute_tx : ℕ → MultisigTransactionStorage → Action S Bytes
  execute_tx zero t = raise out_of_fuel
  execute_tx (suc fuel) t = run_transaction (execute_tx fuel) t.account t.info.transaction

  -- `approve_multisig` and `execute_multisig`
  unfoldable pub approve_multisig : ℕ → Address → Bytes → Action S Bool
  approve_multisig fuel = approve_with (execute_tx fuel)

  unfoldable pub execute_multisig : ℕ → Address → Bytes → Action S ResponseMessage
  execute_multisig fuel = execute_with (execute_tx fuel)

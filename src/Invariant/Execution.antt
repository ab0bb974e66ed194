-- ===== src/Invariant/Execution.antt =====
-- The execution of held transactions keeps the storage sound, nested executions included.
use many_framework.Prelude.{ℕ, zero, suc, ◌≡◌, true, false, Bool, some, arith, Bytes, inl, inr}
use many_framework.Types.{
  Address, owner, Account, EventInfo, ok, MultisigTransactionStorage, Transaction,
}
use many_framework.Platform.{Platform, IsPlatform}
use many_framework.Storage.State.{LedgerStorage, Action, pure, ◌>>=◌, ◌>>◌}
use many_framework.Storage.Event.{log_event}
use many_framework.Storage.Basic.Subresources.{Result-cases}
use many_framework.Storage.Accounts.{add_account}
use many_framework.Storage.Multisig.{get_enabled}
use many_framework.Storage.Multisig.Execution.{
  attempt, execute_internal, execute_if_automatic, approve_with, execute_with, answer, get_owned,
  run_transaction, execute_tx, approve_multisig, execute_multisig,
}
use many_framework.Invariant.Sound.{Sound, IsWellFormed, log_event-Sound}
use many_framework.Invariant.Storage.{send-Sound}
use many_framework.Invariant.Accounts.{
  get_account-own, get_account_same, add_new_account-Sound, disable_account-Sound,
  set_description-Sound, add_roles-Sound, remove_roles-Sound, add_features-Sound,
}
use many_framework.Invariant.Multisig.{
  get_enabled_same, get_enabled-formed, get_holder_same, commit_multisig_transaction-Sound,
  disable_multisig_transaction-Sound, withdraw_multisig-Sound, revoke_multisig-Sound,
  set_multisig_defaults-Sound, create_multisig_transaction-Sound,
}

module _ {S : Type 0} (p : Platform S) (l : IsPlatform p) where
  -- A way to run held transactions that keeps the storage sound.
  abbrev KeepsSound : (MultisigTransactionStorage → Action S Bytes) → Type 0
  KeepsSound run =
      (t : MultisigTransactionStorage) (st : LedgerStorage S)
      → IsWellFormed t.info.transaction
      → Sound p st
      → Sound p (run t st).1

  get_owned_same : (sender id : Address) (st : LedgerStorage S) → (get_owned p sender id st).1 ≡ st
  unfolding get_owned
  get_owned_same sender id st = grind (arith, get_account_same p l id st)

  get_owned-own :
      (sender id : Address) (st : LedgerStorage S) (a : Account)
      → Sound p st
      → (get_owned p sender id st).0 ≡ ok a
      → p.has_role a id owner ≡ true
  unfolding get_owned
  get_owned-own sender id st a h e =
      grind (arith, get_account_same p l id st, get_account-own p l id st a h)

  module _ (run : MultisigTransactionStorage → Action S Bytes) (keeps : KeepsSound run) where
    execute_internal-Sound :
        (tx_id : Bytes) (t : MultisigTransactionStorage) (automatic : Bool) (st : LedgerStorage S)
        → IsWellFormed t.info.transaction
        → Sound p st
        → Sound p (execute_internal p run tx_id t automatic st).1
    unfolding execute_internal attempt
    execute_internal-Sound tx_id t automatic st formed h =
        let ran = keeps t st formed h in grind (arith, disable_multisig_transaction-Sound p l)

    execute_if_automatic-Sound :
        (tx_id : Bytes) (t : MultisigTransactionStorage) (st : LedgerStorage S)
        → IsWellFormed t.info.transaction
        → Sound p st
        → Sound p (execute_if_automatic p run tx_id t st).1
    unfolding execute_if_automatic
    execute_if_automatic-Sound tx_id t st formed h =
        let ran = execute_internal-Sound tx_id t true st formed h in
        grind (arith, log_event-Sound p l)

    approve_with-Sound :
        (sender : Address) (tx_id : Bytes) (st : LedgerStorage S)
        → Sound p st
        → Sound p (approve_with p run sender tx_id st).1
    unfolding approve_with
    approve_with-Sound sender tx_id st h = grind (
      arith,
      get_enabled_same p l tx_id st,
      get_enabled-formed p l tx_id st,
      get_holder_same p l,
      commit_multisig_transaction-Sound p l,
      log_event-Sound p l,
      execute_if_automatic-Sound,
    )

    -- The end of `execute_with`.
    execute_and_log-Sound :
        (sender : Address) (tx_id : Bytes) (t : MultisigTransactionStorage) (st : LedgerStorage S)
        → IsWellFormed t.info.transaction
        → Sound p st
        → Sound p
            ((execute_internal p run tx_id t false >>= λ response.
                log_event p (EventInfo.multisig_execute t.account tx_id (some sender) response)
                >> pure response)
              st).1
    execute_and_log-Sound sender tx_id t st formed h =
        let ran = execute_internal-Sound tx_id t false st formed h in
        grind (arith, log_event-Sound p l)

    execute_with-Sound :
        (sender : Address) (tx_id : Bytes) (st : LedgerStorage S)
        → Sound p st
        → Sound p (execute_with p run sender tx_id st).1
    unfolding execute_with
    execute_with-Sound sender tx_id st h =
        let same = get_enabled_same p l tx_id st in
        elim (Result-cases (get_enabled p tx_id st).0) [
          | inl (t, found) ↦
              let ran =
                execute_and_log-Sound sender tx_id t st (get_enabled-formed p l tx_id st t h found)
                  h in
              ground (arith, same, found, get_holder_same p l t st, ran)
          | inr (e, refused) ↦ ground (arith, same, refused)
        ]

    run_transaction-Sound :
        (sender : Address) (tx : Transaction) (st : LedgerStorage S)
        → IsWellFormed tx
        → Sound p st
        → Sound p (run_transaction p run sender tx st).1
    unfolding run_transaction answer add_account
    run_transaction-Sound sender (Transaction.send args) st formed h =
        grind (arith, get_account_same p l, send-Sound p l)
    run_transaction-Sound sender (Transaction.account_create args) st formed h =
        grind (arith, add_new_account-Sound p l)
    run_transaction-Sound sender (Transaction.account_disable id) st formed h =
        grind (arith, get_owned_same, disable_account-Sound p l)
    run_transaction-Sound sender (Transaction.account_set_description args) st formed h =
        grind (arith, get_owned_same, get_owned-own, set_description-Sound p l)
    run_transaction-Sound sender (Transaction.account_add_roles args) st formed h =
        grind (arith, get_owned_same, get_owned-own, add_roles-Sound p l)
    run_transaction-Sound sender (Transaction.account_remove_roles args) st formed h =
        grind (arith, get_owned_same, get_owned-own, remove_roles-Sound p l)
    run_transaction-Sound sender (Transaction.account_add_features args) st formed h =
        grind (arith, get_owned_same, get_owned-own, add_features-Sound p l)
    run_transaction-Sound sender (Transaction.multisig_submit arg tx) st formed h =
        grind (arith, create_multisig_transaction-Sound p l)
    run_transaction-Sound sender (Transaction.multisig_set_defaults args) st formed h =
        grind (arith, set_multisig_defaults-Sound p l)
    run_transaction-Sound sender (Transaction.multisig_approve tx_id) st formed h =
        grind (arith, approve_with-Sound)
    run_transaction-Sound sender (Transaction.multisig_revoke tx_id) st formed h =
        grind (arith, revoke_multisig-Sound p l)
    run_transaction-Sound sender (Transaction.multisig_execute tx_id) st formed h =
        grind (arith, execute_with-Sound)
    run_transaction-Sound sender (Transaction.multisig_withdraw tx_id) st formed h =
        grind (arith, withdraw_multisig-Sound p l)
    run_transaction-Sound sender (Transaction.unsupported n) st formed h = h

  execute_tx-Sound : (fuel : ℕ) → KeepsSound (execute_tx p fuel)
  unfolding execute_tx
  execute_tx-Sound zero t st formed h = h
  execute_tx-Sound (suc fuel) t st formed h =
      run_transaction-Sound (execute_tx p fuel) (execute_tx-Sound fuel) t.account t.info.transaction
        st formed h

  pub approve_multisig-Sound :
      (fuel : ℕ) (sender : Address) (tx_id : Bytes) (st : LedgerStorage S)
      → Sound p st
      → Sound p (approve_multisig p fuel sender tx_id st).1
  unfolding approve_multisig
  approve_multisig-Sound fuel = approve_with-Sound (execute_tx p fuel) (execute_tx-Sound fuel)

  pub execute_multisig-Sound :
      (fuel : ℕ) (sender : Address) (tx_id : Bytes) (st : LedgerStorage S)
      → Sound p st
      → Sound p (execute_multisig p fuel sender tx_id st).1
  unfolding execute_multisig
  execute_multisig-Sound fuel = execute_with-Sound (execute_tx p fuel) (execute_tx-Sound fuel)

-- ===== src/Storage/Multisig/Once.antt =====
-- A held transaction is executed at most once, an approval is counted, and a transaction that
-- executes itself never ends.
use many_framework.Prelude.{
  ℕ, zero, suc, ◌≡◌, refl, true, false, Bool, Option, none, some, Bytes, ◌==◌, if◌then◌else◌, arith,
  ◌⊎◌, inl, inr, Bool-cases,
}
use many_framework.Types.{
  Address, Account, multisig, EventInfo, Result, ok, err, Transaction, ResponseMessage,
  MultisigTransactionStorage, MultisigTransactionState, out_of_fuel,
  transaction_expired_or_withdrawn, transaction_cannot_be_found, Value, amount, account, token_info,
  ext_info, tickers, event, attributes, credential, be_u64, be_u32, address, metadata, raw,
  event_id, data_infos,
}
use many_framework.Platform.{Platform, IsPlatform}
use many_framework.Storage.State.{LedgerStorage, Action, pure, ◌>>=◌, ◌>>◌}
use many_framework.Storage.Event.{log_event}
use many_framework.Storage.Keys.{key_for_multisig_transaction}
use many_framework.Storage.Basic.Laws.{value}
use many_framework.Storage.Event.Laws.{log_event_lem}
use many_framework.Storage.Multisig.{
  as_multisig, set_vote, with_votes, should_execute, get_multisig_info, get_enabled, get_holder,
  may_vote, may_decide, disable, disable_multisig_transaction, revoke_multisig, withdraw_multisig,
}
use many_framework.Storage.Multisig.Execution.{
  attempt, executed, execute_internal, approve_with, execute_with, execute_if_automatic,
  approve_multisig, execute_multisig, execute_tx, run_transaction,
}
use many_framework.Storage.Multisig.Laws.{
  vote_of, vote_of-set_vote, is_closed, Held, kept, get_enabled-Held, closed_refuses,
  commit_multisig_lem, value-kept, held-logged, disable_lem,
}

abbrev pub succeeded {ℓ} : {A : Type ℓ} → Result A → Bool
succeeded (ok a) = true
succeeded (err e) = false

abbrev refuse_closed : Result MultisigTransactionStorage → Result MultisigTransactionStorage
refuse_closed (ok t) = if t.disabled then err transaction_expired_or_withdrawn else ok t
refuse_closed (err e) = err e

-- What is found under the key of a transaction.
abbrev opened : Option Value → Result MultisigTransactionStorage
opened none = err transaction_cannot_be_found
opened (some v) = refuse_closed (as_multisig v)

-- A transaction that may be worked on, or none.
opened_cases :
    (o : Option Value)
    → ((t : MultisigTransactionStorage) × (o ≡ some (multisig t)) × (t.disabled ≡ false))
      ⊎ (succeeded (opened o) ≡ false)
opened_cases none = inr refl
opened_cases (some (multisig t)) = elim (Bool-cases t.disabled) [
  | inl closed ↦ inr (ground arith)
  | inr enabled ↦ inl (t, refl, enabled)
]
opened_cases (some (amount a)) = inr refl
opened_cases (some (account a)) = inr refl
opened_cases (some (token_info a)) = inr refl
opened_cases (some (ext_info a)) = inr refl
opened_cases (some (tickers a)) = inr refl
opened_cases (some (event a)) = inr refl
opened_cases (some (attributes a)) = inr refl
opened_cases (some (credential a)) = inr refl
opened_cases (some (be_u64 a)) = inr refl
opened_cases (some (be_u32 a)) = inr refl
opened_cases (some (address a)) = inr refl
opened_cases (some (metadata a)) = inr refl
opened_cases (some (raw a)) = inr refl
opened_cases (some (event_id a)) = inr refl
opened_cases (some (data_infos a)) = inr refl

module _ {S : Type 0} (p : Platform S) (l : IsPlatform p) where
  get_enabled-opened :
      (tx_id : Bytes) (st : LedgerStorage S)
      → get_enabled p tx_id st ≡ (opened (value p st (key_for_multisig_transaction tx_id)), st)
  unfolding get_enabled get_multisig_info
  get_enabled-opened tx_id st = ground arith

  disable_refused :
      (tx_id : Bytes) (state : MultisigTransactionState) (st : LedgerStorage S)
      → succeeded (opened (value p st (key_for_multisig_transaction tx_id))) ≡ false
      → succeeded (disable_multisig_transaction p tx_id state st).0 ≡ false
  unfolding disable_multisig_transaction
  disable_refused tx_id state st h = ground (arith, get_enabled-opened tx_id st)

  disable_closes :
      (tx_id : Bytes) (state : MultisigTransactionState) (st : LedgerStorage S)
      → succeeded (disable_multisig_transaction p tx_id state st).0 ≡ true
      → is_closed (
          value p
            (disable_multisig_transaction p tx_id state st).1
            (key_for_multisig_transaction tx_id))
        ≡ true
  disable_closes tx_id state st h =
      elim (opened_cases (value p st (key_for_multisig_transaction tx_id))) [
        | inl (t, held, enabled) ↦ ground (
          arith,
          disable_lem p l tx_id state t st held enabled,
          value-kept p l tx_id (disable state t) st,
        )
        | inr refused ↦ ground (arith, disable_refused tx_id state st refused)
      ]

  execute_internal_closes :
      (run : MultisigTransactionStorage → Action S Bytes) (tx_id : Bytes)
      (t : MultisigTransactionStorage) (automatic : Bool) (st : LedgerStorage S)
      → let after = execute_internal p run tx_id t automatic st in
        succeeded after.0 ≡ true
        → is_closed (value p after.1 (key_for_multisig_transaction tx_id)) ≡ true
  unfolding execute_internal
  execute_internal_closes run tx_id t automatic st h =
      ground (arith, disable_closes tx_id (executed automatic) (attempt p (run t) st).1)

  -- The answer is logged, and handed back.
  abbrev log_answer : Address → Bytes → Option Address → ResponseMessage → Action S ResponseMessage
  log_answer holder tx_id sender response =
      log_event p (EventInfo.multisig_execute holder tx_id sender response) >> pure response

  log_answer-closes :
      (holder : Address) (tx_id : Bytes) (sender : Option Address)
      (r : Result ResponseMessage × LedgerStorage S)
      → (succeeded r.0 ≡ true → is_closed (value p r.1 (key_for_multisig_transaction tx_id)) ≡ true)
      → let after = ((λ s. r) >>= log_answer holder tx_id sender) r.1 in
        succeeded after.0 ≡ true
        → is_closed (value p after.1 (key_for_multisig_transaction tx_id)) ≡ true
  log_answer-closes holder tx_id sender (ok a, st) h e =
      let content = EventInfo.multisig_execute holder tx_id sender a in
      ground (arith, h refl, log_event_lem p l content st, held-logged p l content tx_id st)
  log_answer-closes holder tx_id sender (err x, st) h e = ground arith

  execute_closes :
      (fuel : ℕ) (sender : Address) (tx_id : Bytes) (st : LedgerStorage S)
      → let after = execute_multisig p fuel sender tx_id st in
        succeeded after.0 ≡ true
        → is_closed (value p after.1 (key_for_multisig_transaction tx_id)) ≡ true
  unfolding execute_multisig execute_with
  execute_closes fuel sender tx_id st h =
      let e = get_enabled-opened tx_id st in
      elim (opened_cases (value p st (key_for_multisig_transaction tx_id))) [
        | inl (t, held, enabled) ↦
            let run = execute_tx p fuel in
            let before = (get_holder p t st).1 in
            ground (
              arith,
              get_enabled-Held p tx_id t st held enabled,
              log_answer-closes t.account tx_id (some sender)
                  (execute_internal p run tx_id t false before)
                  (execute_internal_closes run tx_id t false before),
            )
        | inr refused ↦ ground (arith, e)
      ]

  -- Once `execute_multisig` has succeeded on a transaction, that transaction is closed: executing it
  -- again, and approving, revoking or withdrawing it, is refused whoever asks, and changes nothing.
  pub execute_multisig_once :
      (fuel fuel' : ℕ) (sender sender' : Address) (tx_id : Bytes) (st : LedgerStorage S)
      → succeeded (execute_multisig p fuel sender tx_id st).0 ≡ true
      → let after = (execute_multisig p fuel sender tx_id st).1 in
        (approve_multisig p fuel' sender' tx_id after
          ≡ (err transaction_expired_or_withdrawn, after))
        × (revoke_multisig p sender' tx_id after ≡ (err transaction_expired_or_withdrawn, after))
        × (execute_multisig p fuel' sender' tx_id after
            ≡ (err transaction_expired_or_withdrawn, after))
        × (withdraw_multisig p sender' tx_id after ≡ (err transaction_expired_or_withdrawn, after))
  execute_multisig_once fuel fuel' sender sender' tx_id st h =
      closed_refuses p fuel' sender' tx_id (execute_multisig p fuel sender tx_id st).1
        (execute_closes fuel sender tx_id st h)

  -- An approval by an address that the enabled account lets vote, of an open transaction that is not
  -- executed automatically, succeeds: the transaction is kept with that vote, and every other vote stays.
  pub approve_lem :
      (fuel : ℕ) (sender : Address) (tx_id : Bytes) (t : MultisigTransactionStorage) (a : Account)
      (st : LedgerStorage S)
      → Held p st tx_id t
      → t.disabled ≡ false
      → get_holder p t st ≡ (ok a, st)
      → may_vote p a sender ≡ true
      → t.info.execute_automatically ≡ false
      → let after = approve_multisig p fuel sender tx_id st in
        let votes = set_vote sender true t.info.approvers in
        (after.0 ≡ ok false)
        × Held p after.1 tx_id (with_votes votes t)
        × ((j : Address)
            → vote_of votes j ≡ (if sender == j then some true else vote_of t.info.approvers j))
  unfolding approve_multisig approve_with execute_if_automatic
  approve_lem fuel sender tx_id t a st held enabled holder may manual =
      let new = with_votes (set_vote sender true t.info.approvers) t in
      let content = EventInfo.multisig_approve t.account tx_id sender in
      let e = get_enabled-Held p tx_id t st held enabled in
      let c = commit_multisig_lem p l tx_id new st in
      let logs = log_event_lem p l content (kept p tx_id new st) in
      (
        ground (arith, e, c, logs),
        ground (
          arith,
          e,
          c,
          logs,
          held-logged p l content tx_id (kept p tx_id new st),
          value-kept p l tx_id new st,
        ),
        λ j. vote_of-set_vote sender j true t.info.approvers,
      )

  execute_internal_endless :
      (run : MultisigTransactionStorage → Action S Bytes) (tx_id : Bytes)
      (t : MultisigTransactionStorage) (st : LedgerStorage S)
      → run t st ≡ (err out_of_fuel, st)
      → execute_internal p run tx_id t false st ≡ (err out_of_fuel, st)
  unfolding execute_internal attempt
  execute_internal_endless run tx_id t st h = ground arith

  execute_with_endless :
      (run : MultisigTransactionStorage → Action S Bytes) (tx_id : Bytes)
      (t : MultisigTransactionStorage) (a : Account) (st : LedgerStorage S)
      → Held p st tx_id t
      → t.disabled ≡ false
      → get_holder p t st ≡ (ok a, st)
      → may_decide p a t t.account ≡ true
      → should_execute t ≡ true
      → run t st ≡ (err out_of_fuel, st)
      → execute_with p run t.account tx_id st ≡ (err out_of_fuel, st)
  unfolding execute_with
  execute_with_endless run tx_id t a st held enabled holder may enough endless = ground (
    arith,
    get_enabled-Held p tx_id t st held enabled,
    execute_internal_endless run tx_id t st endless,
  )

  run_execute_endless :
      (run : MultisigTransactionStorage → Action S Bytes) (sender : Address) (tx_id : Bytes)
      (st : LedgerStorage S)
      → execute_with p run sender tx_id st ≡ (err out_of_fuel, st)
      → run_transaction p run sender (Transaction.multisig_execute tx_id) st ≡ (err out_of_fuel, st)
  unfolding run_transaction
  run_execute_endless run sender tx_id st h = ground arith

  -- A transaction that executes itself, once it has enough approvals and its account owns itself or
  -- submitted it, never ends: on any fuel the call stack is used up.
  pub execute_itself_never_ends :
      (fuel : ℕ) (tx_id : Bytes) (t : MultisigTransactionStorage) (a : Account)
      (st : LedgerStorage S)
      → Held p st tx_id t
      → t.disabled ≡ false
      → t.info.transaction ≡ Transaction.multisig_execute tx_id
      → get_holder p t st ≡ (ok a, st)
      → may_decide p a t t.account ≡ true
      → should_execute t ≡ true
      → execute_tx p fuel t st ≡ (err out_of_fuel, st)
  unfolding execute_tx
  execute_itself_never_ends zero tx_id t a st held enabled itself holder may enough = refl
  execute_itself_never_ends (suc fuel) tx_id t a st held enabled itself holder may enough =
      let run = execute_tx p fuel in
      rw itself (
        run_execute_endless run t.account tx_id st (
          execute_with_endless run tx_id t a st held enabled holder may enough
            (execute_itself_never_ends fuel tx_id t a st held enabled itself holder may enough)))

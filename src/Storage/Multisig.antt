-- ===== src/Storage/Multisig.antt =====
-- Transactions held for a multisig account, without their execution:
-- src/many-ledger/src/storage/multisig.rs. A `SystemTime` counts seconds in an `i64`.
pub mod Execution
pub mod Laws
pub mod Expiry
pub mod Timeouts
pub mod Closing
pub mod Once
pub mod Authority
use many_framework.Prelude.{
  ⊤, ℕ, ◌+◌, ◌-◌, ◌^◌, Bool, true, false, Option, none, some, List, [], ◌∷◌, Bytes, ◌==◌, ◌||◌, not,
  ltb, leb, if◌then◌else◌, unwrap_or,
}
use Prim.Native.Nat.{min}
use many_framework.Types.{
  Address, Timestamp, owner, can_multisig_approve, can_multisig_submit, Account, MultisigArg, Value,
  put, multisig, EventInfo, Result, ok, err, SubmitOptions, SetDefaultsArgs, Transaction,
  MultisigTransactionState, Approvers, InfoReturn, MultisigTransactionStorage, unknown_account,
  user_needs_role, unknown, invalid_time, deserialization_error, transaction_cannot_be_found,
  transaction_expired_or_withdrawn, user_cannot_approve_transaction, cannot_execute_transaction,
}
use many_framework.Platform.{Platform, memo_migration}
use many_framework.Storage.State.{
  LedgerStorage, Action, pure, raise, gets, lift, or_raise, raise_if, ◌>>=◌, ◌>>◌,
}
use many_framework.Storage.Keys.{key_for_multisig_transaction}
use many_framework.Storage.Basic.{get, apply, maybe_commit, now}
use many_framework.Storage.Event.{log_event, new_event_id}
use many_framework.Storage.Accounts.{
  get_account, commit_account, multisig_default_threshold, multisig_default_timeout_in_secs,
  multisig_default_execute_automatically, multisig_maximum_timeout_in_secs,
}

abbrev pub as_multisig : Value → Result MultisigTransactionStorage
as_multisig (multisig t) = ok t
as_multisig _ = err deserialization_error

-- `MultisigTransactionStorage::disable`
abbrev pub disable :
    MultisigTransactionState → MultisigTransactionStorage → MultisigTransactionStorage
disable state t = record t { disabled = true; info = record t.info { state = state } }

unfoldable pub count_approved : Approvers → ℕ
count_approved [] = 0
count_approved ((id, approved) ∷ m) = (if approved then 1 else 0) + count_approved m

abbrev pub should_execute : MultisigTransactionStorage → Bool
should_execute t = leb t.info.threshold (count_approved t.info.approvers)

-- `entry(id).or_default().approved = vote`, on a map by ascending address
unfoldable pub set_vote : Address → Bool → Approvers → Approvers
set_vote id vote [] = (id, vote) ∷ []
set_vote id vote ((j, b) ∷ m) =
    let rest = set_vote id vote m in
    if j == id then (j, vote) ∷ m else (if ltb id j then (id, vote) ∷ (j, b) ∷ m else (j, b) ∷ rest)

-- `contains_key`
abbrev pub has_voted : Approvers → Address → Bool
has_voted [] id = false
has_voted ((j, b) ∷ m) id = j == id || has_voted m id

abbrev pub with_votes : Approvers → MultisigTransactionStorage → MultisigTransactionStorage
with_votes m t = record t { info = record t.info { approvers = m } }

-- The settings that the arguments give, over those of the feature.
abbrev pub overwrite_defaults : SetDefaultsArgs → MultisigArg → MultisigArg
overwrite_defaults args m = record {
  threshold = elim args.threshold [ none ↦ m.threshold | some t ↦ some t ];
  timeout_in_secs = elim args.timeout_in_secs [
    | none ↦ m.timeout_in_secs
    | some t ↦ some (min t multisig_maximum_timeout_in_secs)
  ];
  execute_automatically = elim args.execute_automatically [
    | none ↦ m.execute_automatically
    | some b ↦ some b
  ];
}

-- `map(|t| t.min(MULTISIG_MAXIMUM_TIMEOUT_IN_SECS))`
abbrev pub capped : Option ℕ → Option ℕ
capped none = none
capped (some t) = some (min t multisig_maximum_timeout_in_secs)

-- A setting that only an owner may give; without it that of the feature, or the default.
abbrev pub owner_setting : {A : Type 0} → Bool → Option A → Option A → A → Result A
owner_setting is_owner none given default = ok (unwrap_or given default)
owner_setting true (some a) given default = ok a
owner_setting false (some a) given default = err user_needs_role

-- `SystemTime::checked_add`
abbrev pub checked_time : ℕ → Result ℕ
checked_time t = if ltb t (2 ^ 63) then ok t else err (unknown invalid_time)

module _ {S : Type 0} (p : Platform S) where
  unfoldable pub commit_multisig_transaction : Bytes → MultisigTransactionStorage → Action S ⊤
  commit_multisig_transaction tx_id tx = do
    apply p ((key_for_multisig_transaction tx_id, put (multisig tx)) ∷ [])
    maybe_commit p

  unfoldable pub set_multisig_defaults : Address → SetDefaultsArgs → Action S ⊤
  set_multisig_defaults sender args = do
    found ← get_account p args.account
    a ← or_raise found (unknown_account args.account)
    lift (p.needs_role a sender (owner ∷ []))
    elim (p.get_multisig a.features) [
      | err e ↦ pure tt
      | ok m ↦
          let feature = p.multisig_feature (overwrite_defaults args m) in
          let features = (p.insert_feature a.features feature).1 in
          do
            log_event p (
                EventInfo.multisig_set_defaults sender
                  (record args { timeout_in_secs = capped args.timeout_in_secs }))
            commit_account p args.account (record a { features = features })
    ]

  -- What `create_multisig_transaction` stores. The old memo and data are dropped once the memo
  -- migration is active, and the new memo before.
  abbrev pub new_transaction :
      Address
      → SubmitOptions
      → Transaction
      → ℕ
      → Bool
      → Timestamp
      → Timestamp
      → Bool
      → MultisigTransactionStorage
  new_transaction sender arg tx threshold execute_automatically timeout creation memo_active =
      record {
        account = arg.account;
        info = record {
          legacy_memo = if memo_active then none else arg.legacy_memo;
          memo = if memo_active then arg.memo else none;
          transaction = tx;
          submitter = sender;
          approvers = (sender, true) ∷ [];
          threshold = threshold;
          execute_automatically = execute_automatically;
          timeout = timeout;
          legacy_data = if memo_active then none else arg.legacy_data;
          state = MultisigTransactionState.pending;
        };
        creation = creation;
        disabled = false;
      }

  unfoldable pub create_multisig_transaction :
      Address → SubmitOptions → Transaction → Action S Bytes
  create_multisig_transaction sender arg tx = do
    event_id ← new_event_id p
    found ← get_account p arg.account
    a ← or_raise found (unknown_account arg.account)
    let is_owner = p.has_role a sender owner
    lift (p.needs_role a sender (can_multisig_submit ∷ owner ∷ []))
    m ← lift (p.get_multisig a.features)
    threshold ← lift (owner_setting is_owner arg.threshold m.threshold multisig_default_threshold)
    seconds ← lift (
        owner_setting is_owner arg.timeout_in_secs m.timeout_in_secs
          multisig_default_timeout_in_secs)
    automatic ← lift (
        owner_setting is_owner arg.execute_automatically m.execute_automatically
          multisig_default_execute_automatically)
    time ← gets (now p)
    start ← lift (checked_time time)
    timeout ← lift (checked_time (start + min seconds multisig_maximum_timeout_in_secs))
    memo_active ← gets (λ st. st.migrations.is_active memo_migration)
    let storage = new_transaction sender arg tx threshold automatic timeout start memo_active
    commit_multisig_transaction event_id storage
    log_event p (EventInfo.multisig_submit arg.account storage.info event_id)
    pure event_id

  unfoldable pub get_multisig_info : Bytes → Action S MultisigTransactionStorage
  get_multisig_info tx_id st =
      elim (p.get st.persistent_store (key_for_multisig_transaction tx_id)) [
        | none ↦ (err transaction_cannot_be_found, st)
        | some v ↦ (as_multisig v, st)
      ]

  -- The start of every operation on a held transaction.
  unfoldable pub get_enabled : Bytes → Action S MultisigTransactionStorage
  get_enabled tx_id = do
    t ← get_multisig_info tx_id
    raise_if t.disabled transaction_expired_or_withdrawn
    pure t

  -- The account that a held transaction is for.
  unfoldable pub get_holder : MultisigTransactionStorage → Action S Account
  get_holder t = do found ← get_account p t.account; or_raise found (unknown_account t.account)

  -- Whether an account lets an address approve, submit or own.
  abbrev pub may_vote : Account → Address → Bool
  may_vote a sender =
      p.has_role a sender can_multisig_approve
      || p.has_role a sender can_multisig_submit
      || p.has_role a sender owner

  -- Whether an address may execute or withdraw a transaction.
  abbrev pub may_decide : Account → MultisigTransactionStorage → Address → Bool
  may_decide a t sender = p.has_role a sender owner || t.info.submitter == sender

  unfoldable pub revoke_multisig : Address → Bytes → Action S Bool
  revoke_multisig sender tx_id = do
    t ← get_enabled tx_id
    a ← get_holder t
    raise_if (not (has_voted t.info.approvers sender || may_vote a sender))
        user_cannot_approve_transaction
    commit_multisig_transaction tx_id (with_votes (set_vote sender false t.info.approvers) t)
    log_event p (EventInfo.multisig_revoke t.account tx_id sender)
    pure false

  unfoldable pub disable_multisig_transaction : Bytes → MultisigTransactionState → Action S ⊤
  disable_multisig_transaction tx_id state = do
    t ← get_enabled tx_id
    apply p ((key_for_multisig_transaction tx_id, put (multisig (disable state t))) ∷ [])
    maybe_commit p

  unfoldable pub withdraw_multisig : Address → Bytes → Action S ⊤
  withdraw_multisig sender tx_id = do
    t ← get_enabled tx_id
    a ← get_holder t
    raise_if (not (may_decide a t sender)) cannot_execute_transaction
    disable_multisig_transaction tx_id MultisigTransactionState.withdrawn
    log_event p (EventInfo.multisig_withdraw t.account tx_id sender)

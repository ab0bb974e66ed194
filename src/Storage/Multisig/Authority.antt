-- ===== src/Storage/Multisig/Authority.antt =====
-- Who may do what to a held transaction that is open, and how many approvals its execution takes.
use many_framework.Prelude.{
  ℕ, ◌≡◌, ◌≤◌, ◌<◌, refl, true, false, Bool, ◌||◌, List, [], ◌∷◌, Bytes, length, ◌==◌, arith,
}
use many_framework.Types.{
  Address, Account, EventInfo, owner, can_multisig_approve, can_multisig_submit, ok, err, Approvers,
  MultisigTransactionStorage, cannot_execute_transaction,
}
use many_framework.Platform.{Platform, IsPlatform}
use many_framework.Storage.State.{LedgerStorage}
use many_framework.Storage.Event.Laws.{log_event_lem}
use many_framework.Storage.Multisig.{count_approved, set_vote, with_votes, get_holder}
use many_framework.Storage.Multisig.Execution.{
  approve_with, execute_with, execute_if_automatic, approve_multisig, execute_multisig,
}
use many_framework.Storage.Multisig.Laws.{
  Held, kept, get_enabled-Held, commit_multisig_lem, held-logged, value-kept,
}

-- The addresses that approve.
abbrev pub approving : Approvers → List Address
approving [] = []
approving ((id, true) ∷ m) = id ∷ approving m
approving ((id, false) ∷ m) = approving m

count_approved_lem : (m : Approvers) → count_approved m ≡ length (approving m)
unfolding count_approved
count_approved_lem [] = refl
count_approved_lem ((id, true) ∷ m) = ground (arith, count_approved_lem m)
count_approved_lem ((id, false) ∷ m) = ground (arith, count_approved_lem m)

-- An approval takes none away.
count_approved-set_vote :
    (id : Address) (m : Approvers) → count_approved m ≤ count_approved (set_vote id true m)
unfolding count_approved set_vote
count_approved-set_vote id [] = ground arith
count_approved-set_vote id ((j, b) ∷ m) = ground (arith, count_approved-set_vote id m)

module _ {S : Type 0} (p : Platform S) where
  -- One of the roles that let an address vote.
  abbrev pub is_voter : Account → Address → Bool
  is_voter a id =
      p.has_role a id owner
      || p.has_role a id can_multisig_submit
      || p.has_role a id can_multisig_approve

  abbrev pub decides : Account → MultisigTransactionStorage → Address → Bool
  decides a t id = id == t.info.submitter || p.has_role a id owner

module _ {S : Type 0} (p : Platform S) (l : IsPlatform p) (fuel : ℕ) (sender : Address)
    (tx_id : Bytes) (t : MultisigTransactionStorage) (a : Account) (st : LedgerStorage S)
    (held : Held p st tx_id t) (enabled : t.disabled ≡ false)
    (holder : get_holder p t st ≡ (ok a, st)) where
  abbrev voted : Bool → MultisigTransactionStorage
  voted vote = with_votes (set_vote sender vote t.info.approvers) t

  -- Of an open transaction whose account is enabled, and an address with the role to approve, to
  -- submit or to own. Where fewer addresses than the threshold would approve even with this one:
  -- its approval is stored and executes nothing, automatic execution or not, and nobody executes the
  -- transaction by hand, which changes nothing.
  pub below_threshold_held :
      (sender' : Address)
      → is_voter p a sender ≡ true
      → length (approving (set_vote sender true t.info.approvers)) < t.info.threshold
      → let after = approve_multisig p fuel sender tx_id st in
        (after.0 ≡ ok false)
        × Held p after.1 tx_id (voted true)
        × (execute_multisig p fuel sender' tx_id st ≡ (err cannot_execute_transaction, st))
  unfolding approve_multisig approve_with execute_if_automatic execute_multisig execute_with
  below_threshold_held sender' may few =
      let e = get_enabled-Held p tx_id t st held enabled in
      let votes = set_vote sender true t.info.approvers in
      let approves = EventInfo.multisig_approve t.account tx_id sender in
      let c = commit_multisig_lem p l tx_id (voted true) st in
      let logs = log_event_lem p l approves (kept p tx_id (voted true) st) in
      let n = count_approved_lem votes in
      (
        ground (arith, e, c, logs, n),
        ground (
          arith,
          e,
          c,
          logs,
          n,
          held-logged p l approves tx_id (kept p tx_id (voted true) st),
          value-kept p l tx_id (voted true) st,
        ),
        ground (arith, e, n, count_approved-set_vote sender t.info.approvers),
      )

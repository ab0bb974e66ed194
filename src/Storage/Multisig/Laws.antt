-- ===== src/Storage/Multisig/Laws.antt =====
-- Held transactions: what the operations on them store.
use many_framework.Prelude.{
  ℕ, ◌≡◌, refl, true, false, Bool, Option, none, some, [], ◌∷◌, Bytes, bytes_eq_refl, ◌==◌, ==_iff,
  if◌then◌else◌, arith,
}
use many_framework.Types.{
  Address, Batch, Value, put, multisig, EventInfo, ok, err, Approvers, MultisigTransactionStorage,
  MultisigTransactionState, transaction_expired_or_withdrawn,
}
use many_framework.Platform.{Platform, IsPlatform}
use many_framework.Storage.State.{LedgerStorage}
use many_framework.Storage.Keys.{key_for_multisig_transaction}
use many_framework.Storage.Basic.Laws.{
  written, committed, value, apply_sorted, value-written, value-committed, maybe_commit_lem,
}
use many_framework.Storage.Event.Laws.{logged, value-logged_other}
use many_framework.Storage.Multisig.{
  set_vote, get_multisig_info, get_enabled, commit_multisig_transaction, disable,
  disable_multisig_transaction, revoke_multisig, withdraw_multisig,
}
use many_framework.Storage.Multisig.Execution.{
  approve_with, execute_with, approve_multisig, execute_multisig,
}

-- What an address votes.
abbrev pub vote_of : Approvers → Address → Option Bool
vote_of [] id = none
vote_of ((j, b) ∷ m) id = if j == id then some b else vote_of m id

pub vote_of-set_vote :
    (i j : Address) (b : Bool) (m : Approvers)
    → vote_of (set_vote i b m) j ≡ (if i == j then some b else vote_of m j)
unfolding set_vote
vote_of-set_vote i j b [] = ground arith
vote_of-set_vote i j b ((k, c) ∷ m) =
    ground (arith, vote_of-set_vote i j b m, ==_iff k i, ==_iff k j, ==_iff i j)

-- Whether a transaction is kept that was executed, withdrawn or has expired.
abbrev pub is_closed : Option Value → Bool
is_closed (some (multisig t)) = t.disabled
is_closed _ = false

module _ {S : Type 0} (p : Platform S) where
  -- The transaction kept for an id.
  abbrev pub Held : LedgerStorage S → Bytes → MultisigTransactionStorage → Type 0
  Held st tx_id t = value p st (key_for_multisig_transaction tx_id) ≡ some (multisig t)

  -- The storage after a transaction is committed.
  unfoldable pub kept : Bytes → MultisigTransactionStorage → LedgerStorage S → LedgerStorage S
  kept tx_id t st =
      committed p (written p ((key_for_multisig_transaction tx_id, put (multisig t)) ∷ []) st)

  pub get_enabled_closed :
      (tx_id : Bytes) (st : LedgerStorage S)
      → is_closed (value p st (key_for_multisig_transaction tx_id)) ≡ true
      → get_enabled p tx_id st ≡ (err transaction_expired_or_withdrawn, st)
  unfolding get_enabled get_multisig_info
  get_enabled_closed tx_id st h = ground arith

  pub get_enabled-Held :
      (tx_id : Bytes) (t : MultisigTransactionStorage) (st : LedgerStorage S)
      → Held st tx_id t
      → t.disabled ≡ false
      → get_enabled p tx_id st ≡ (ok t, st)
  unfolding get_enabled get_multisig_info
  get_enabled-Held tx_id t st h e = ground arith

  -- Once a transaction is closed, approving, revoking, executing and withdrawing it are refused,
  -- whoever asks, and change nothing.
  pub closed_refuses :
      (fuel : ℕ) (sender : Address) (tx_id : Bytes) (st : LedgerStorage S)
      → is_closed (value p st (key_for_multisig_transaction tx_id)) ≡ true
      → (approve_multisig p fuel sender tx_id st ≡ (err transaction_expired_or_withdrawn, st))
        × (revoke_multisig p sender tx_id st ≡ (err transaction_expired_or_withdrawn, st))
        × (execute_multisig p fuel sender tx_id st ≡ (err transaction_expired_or_withdrawn, st))
        × (withdraw_multisig p sender tx_id st ≡ (err transaction_expired_or_withdrawn, st))
  unfolding approve_multisig approve_with revoke_multisig execute_multisig execute_with
      withdraw_multisig
  closed_refuses fuel sender tx_id st h =
      let e = get_enabled_closed tx_id st h in
      (ground (arith, e), ground (arith, e), ground (arith, e), ground (arith, e))

module _ {S : Type 0} (p : Platform S) (l : IsPlatform p) where
  pub commit_multisig_lem :
      (tx_id : Bytes) (t : MultisigTransactionStorage) (st : LedgerStorage S)
      → commit_multisig_transaction p tx_id t st ≡ (ok tt, kept p tx_id t st)
  unfolding commit_multisig_transaction kept
  commit_multisig_lem tx_id t st =
      let b : Batch = (key_for_multisig_transaction tx_id, put (multisig t)) ∷ [] in
      ground (arith, apply_sorted p l b st refl, maybe_commit_lem p (written p b st))

  pub value-kept :
      (tx_id : Bytes) (t : MultisigTransactionStorage) (st : LedgerStorage S)
      → Held p (kept p tx_id t st) tx_id t
  unfolding kept
  value-kept tx_id t st =
      let k = key_for_multisig_transaction tx_id in
      let b : Batch = (k, put (multisig t)) ∷ [] in
      ground (
        arith,
        value-committed p l (written p b st) k,
        value-written p l b st k refl,
        bytes_eq_refl k,
      )

  pub held-logged :
      (content : EventInfo) (tx_id : Bytes) (st : LedgerStorage S)
      → value p (logged p content st) (key_for_multisig_transaction tx_id)
        ≡ value p st (key_for_multisig_transaction tx_id)
  unfolding key_for_multisig_transaction
  held-logged content tx_id st =
      value-logged_other p l content st (key_for_multisig_transaction tx_id) refl

  pub disable_lem :
      (tx_id : Bytes) (state : MultisigTransactionState) (t : MultisigTransactionStorage)
      (st : LedgerStorage S)
      → Held p st tx_id t
      → t.disabled ≡ false
      → disable_multisig_transaction p tx_id state st ≡ (ok tt, kept p tx_id (disable state t) st)
  unfolding disable_multisig_transaction commit_multisig_transaction
  disable_lem tx_id state t st h enabled = ground (
    arith,
    get_enabled-Held p tx_id t st h enabled,
    commit_multisig_lem tx_id (disable state t) st,
  )

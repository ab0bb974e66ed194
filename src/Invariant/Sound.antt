-- ===== src/Invariant/Sound.antt =====
-- Values that may be stored: an account owns itself, and the role maps of a held transaction are
-- maps.
use many_framework.Prelude.{
  ◌≡◌, true, false, Bool, Option, none, some, [], ◌∷◌, ◌++◌, Bytes, bytes_eq, bytes_eq_iff, ==_iff,
  ◌&&◌, arith, Bool-cases, inl, inr,
}
use mathlib.Core.Path.{subst}
use many_framework.Types.{
  Address, owner, Account, Value, Op, put, delete, Batch, account, multisig, amount, token_info,
  ext_info, tickers, event, attributes, data_infos, credential, be_u64, be_u32, address, metadata,
  raw, event_id, EventInfo, Transaction,
}
use many_framework.Platform.{Platform, IsPlatform, batch_get, is_sorted, op_value}
use many_framework.Storage.State.{LedgerStorage}
use many_framework.Storage.Keys.{key_for_account}
use many_framework.Storage.Keys.Distinct.{key_for_account_eq}
use many_framework.Storage.Event.{log_event, new_event_id}
use many_framework.Storage.Basic.{apply, maybe_commit}
use many_framework.Storage.Basic.Laws.{
  value, written, committed, value-written, value-committed, maybe_commit_lem, apply_sorted,
  apply_unsorted,
}
use many_framework.Storage.Accounts.Roles.{IsMap}

-- The role maps that a transaction carries are maps.
abbrev pub IsWellFormed : Transaction → Type 0
IsWellFormed (Transaction.account_add_roles args) = IsMap args.roles
IsWellFormed (Transaction.account_remove_roles args) = IsMap args.roles
IsWellFormed (Transaction.multisig_submit options tx) = IsWellFormed tx
IsWellFormed _ = Unit {0}

-- A value that is neither an account nor a held transaction.
abbrev pub is_plain_value : Value → Bool
is_plain_value (account a) = false
is_plain_value (multisig t) = false
is_plain_value _ = true

abbrev pub is_plain_op : Op → Bool
is_plain_op (put v) = is_plain_value v
is_plain_op delete = true

abbrev pub is_plain : Batch → Bool
is_plain [] = true
is_plain ((k, op) ∷ b) = is_plain_op op && is_plain b

module _ {S : Type 0} (p : Platform S) where
  -- What may be stored under a key.
  abbrev pub SoundValue : Bytes → Value → Type 0
  SoundValue k (account a) =
      (id : Address)
      → bytes_eq (key_for_account p.identity id) k ≡ true
      → p.has_role a id owner ≡ true
  SoundValue k (multisig t) = IsWellFormed t.info.transaction
  SoundValue k _ = Unit {0}

  abbrev pub SoundOption : Bytes → Option Value → Type 0
  SoundOption k none = Unit {0}
  SoundOption k (some v) = SoundValue k v

  -- Every value stored may be stored there.
  pub record Sound (st : LedgerStorage S) : Type 0 where
    pub at : (k : Bytes) → SoundOption k (value p st k)

  abbrev pub SoundOp : Bytes → Op → Type 0
  SoundOp k (put v) = SoundValue k v
  SoundOp k delete = Unit {0}

  abbrev pub SoundBatch : Batch → Type 0
  SoundBatch [] = Unit {0}
  SoundBatch ((k, op) ∷ b) = SoundOp k op × SoundBatch b

  SoundOption-op : (k : Bytes) (op : Op) → SoundOp k op → SoundOption k (op_value op)
  SoundOption-op k (put v) h = h
  SoundOption-op k delete h = tt

  SoundOption-batch_get :
      (b : Batch) (k : Bytes) (old : Option Value)
      → SoundBatch b
      → SoundOption k old
      → SoundOption k (batch_get b k old)
  SoundOption-batch_get [] k old hb h = h
  SoundOption-batch_get ((j, op) ∷ b) k old hb h = elim (Bool-cases (bytes_eq j k)) [
    | inl same ↦
        rw same (SoundOption-op k op (subst (λ x. SoundOp x op) ((bytes_eq_iff j k).0 same) hb.0))
    | inr other ↦ rw other (SoundOption-batch_get b k old hb.1 h)
  ]

  pub SoundBatch-append : (b c : Batch) → SoundBatch b → SoundBatch c → SoundBatch (b ++ c)
  SoundBatch-append [] c hb hc = hc
  SoundBatch-append ((k, op) ∷ b) c hb hc = (hb.0, SoundBatch-append b c hb.1 hc)

  plain-SoundValue : (k : Bytes) (v : Value) → is_plain_value v ≡ true → SoundValue k v
  plain-SoundValue k (account a) h = absurd (cc)
  plain-SoundValue k (multisig t) h = absurd (cc)
  plain-SoundValue k (amount a) h = tt
  plain-SoundValue k (token_info a) h = tt
  plain-SoundValue k (ext_info a) h = tt
  plain-SoundValue k (tickers a) h = tt
  plain-SoundValue k (event a) h = tt
  plain-SoundValue k (attributes a) h = tt
  plain-SoundValue k (data_infos a) h = tt
  plain-SoundValue k (credential a) h = tt
  plain-SoundValue k (be_u64 a) h = tt
  plain-SoundValue k (be_u32 a) h = tt
  plain-SoundValue k (address a) h = tt
  plain-SoundValue k (metadata a) h = tt
  plain-SoundValue k (raw a) h = tt
  plain-SoundValue k (event_id a) h = tt

  plain-SoundOp : (k : Bytes) (op : Op) → is_plain_op op ≡ true → SoundOp k op
  plain-SoundOp k (put v) h = plain-SoundValue k v h
  plain-SoundOp k delete h = tt

  pub plain-SoundBatch : (b : Batch) → is_plain b ≡ true → SoundBatch b
  plain-SoundBatch [] h = tt
  plain-SoundBatch ((k, op) ∷ b) h =
      (plain-SoundOp k op (ground arith), plain-SoundBatch b (ground arith))

module _ {S : Type 0} (p : Platform S) (l : IsPlatform p) where
  pub written-Sound :
      (b : Batch) (st : LedgerStorage S)
      → SoundBatch p b
      → is_sorted b ≡ true
      → Sound p st
      → Sound p (written p b st)
  written-Sound b st hb sorted h = record {
    at = λ k.
        rw (value-written p l b st k sorted)
          (SoundOption-batch_get p b k (value p st k) hb (h.at k));
  }

  pub apply-Sound :
      (b : Batch) (st : LedgerStorage S) → SoundBatch p b → Sound p st → Sound p (apply p b st).1
  apply-Sound b st hb h = elim (Bool-cases (is_sorted b)) [
    | inl sorted ↦ rw (apply_sorted p l b st sorted) (written-Sound b st hb sorted h)
    | inr unsorted ↦ rw (apply_unsorted p l b st unsorted) h
  ]

  pub apply_plain-Sound :
      (b : Batch) (st : LedgerStorage S) → is_plain b ≡ true → Sound p st → Sound p (apply p b st).1
  apply_plain-Sound b st plain h = apply-Sound b st (plain-SoundBatch p b plain) h

  pub committed-Sound : (st : LedgerStorage S) → Sound p st → Sound p (committed p st)
  committed-Sound st h = record { at = λ k. rw (value-committed p l st k) (h.at k) }

  pub maybe_commit-Sound : (st : LedgerStorage S) → Sound p st → Sound p (maybe_commit p st).1
  maybe_commit-Sound st h = rw (maybe_commit_lem p st) (committed-Sound st h)

  pub new_event_id-Sound : (st : LedgerStorage S) → Sound p st → Sound p (new_event_id p st).1
  unfolding new_event_id
  new_event_id-Sound st h = record { at = λ k. h.at k }

  pub log_event-Sound :
      (content : EventInfo) (st : LedgerStorage S) → Sound p st → Sound p (log_event p content st).1
  unfolding log_event
  log_event-Sound content st h =
      grind (arith, apply_plain-Sound, maybe_commit-Sound, new_event_id-Sound)

  -- An account that owns itself, under its own key.
  pub SoundValue-account :
      (id : Address) (a : Account)
      → p.has_role a id owner ≡ true
      → SoundValue p (key_for_account p.identity id) (account a)
  SoundValue-account id a h j e =
      ground (arith, key_for_account_eq p.identity l.is_identity j id, ==_iff j id)

-- ===== src/Storage/Event/Laws.antt =====
-- What logging an event does: it always succeeds, appends one entry under the next id and counts
-- it, and touches nothing outside the event log.
use many_framework.Prelude.{
  ◌+◌, ◌%◌, Bool, true, false, ◌≡◌, refl, some, [], ◌∷◌, Bytes, arith, bytes_eq, bytes_eq_refl,
  bytes_eq_iff, take, take-append, length, not, ◌++◌, codes,
}
use many_framework.Types.{EventInfo, EventLog, put, event, be_u64, Batch, ok}
use many_framework.Platform.{Platform, IsPlatform, batch_get, is_sorted}
use many_framework.Storage.State.{LedgerStorage}
use many_framework.Storage.Keys.{key_for_event, event_count_root, pad_id}
use many_framework.Storage.Basic.{u64_mod, now}
use many_framework.Storage.Basic.Laws.{
  written, committed, value, maybe_commit_lem, apply_sorted, value-written, value-committed,
}
use many_framework.Storage.Event.{nb_events, log_event, new_event_id}

-- Keys that no event is kept under.
abbrev pub outside_log : Bytes → Bool
outside_log k = not (bytes_eq (take 7 k) (codes "/events"))

pub other_key :
    (ps xs k : Bytes)
    → not (bytes_eq (take (length ps) k) ps) ≡ true
    → bytes_eq (ps ++ xs) k ≡ false
other_key ps xs k h = ground (arith, bytes_eq_iff (ps ++ xs) k, bytes_eq_refl ps, take-append ps xs)

module _ {S : Type 0} (p : Platform S) where
  -- The storage once the next id is taken.
  abbrev numbered : LedgerStorage S → LedgerStorage S
  numbered st = record st { latest_tid = p.add_id st.latest_tid 1 }

  -- The entry that the next logged event gets.
  unfoldable pub next_log : EventInfo → LedgerStorage S → EventLog
  next_log content st = record { id = p.add_id st.latest_tid 1; time = now p st; content = content }

  unfoldable pub event_batch : EventInfo → LedgerStorage S → Batch
  unfolding next_log nb_events
  event_batch content st =
      (key_for_event (p.add_id st.latest_tid 1), put (event (next_log content st)))
      ∷ (event_count_root, put (be_u64 ((nb_events p st + 1) % u64_mod)))
      ∷ []

  -- The storage after an event is logged.
  unfoldable pub logged : EventInfo → LedgerStorage S → LedgerStorage S
  logged content st = committed p (written p (event_batch content st) (numbered st))

module _ {S : Type 0} (p : Platform S) (l : IsPlatform p) where
  event_batch-sorted :
      (content : EventInfo) (st : LedgerStorage S) → is_sorted (event_batch p content st) ≡ true
  unfolding event_batch key_for_event
  event_batch-sorted content st = refl

  pub log_event_lem :
      (content : EventInfo) (st : LedgerStorage S)
      → log_event p content st ≡ (ok tt, logged p content st)
  unfolding log_event new_event_id logged event_batch next_log now
  log_event_lem content st = ground (
    arith,
    apply_sorted p l (event_batch p content st) (numbered p st) (event_batch-sorted content st),
    maybe_commit_lem p (written p (event_batch p content st) (numbered p st)),
  )

  -- What is stored under a key after an event is logged.
  pub value-logged :
      (content : EventInfo) (st : LedgerStorage S) (k : Bytes)
      → value p (logged p content st) k ≡ batch_get (event_batch p content st) k (value p st k)
  unfolding logged
  value-logged content st k = rw (value-committed p l) (
      value-written p l (event_batch p content st) (numbered p st) k
        (event_batch-sorted content st))

  -- No key outside the event log is touched.
  pub value-logged_other :
      (content : EventInfo) (st : LedgerStorage S) (k : Bytes)
      → outside_log k ≡ true
      → value p (logged p content st) k ≡ value p st k
  unfolding event_batch key_for_event
  value-logged_other content st k h = ground (
    arith,
    value-logged content st k,
    other_key (codes "/events") (b'/' ∷ pad_id (p.add_id st.latest_tid 1)) k h,
    other_key (codes "/events") (codes "_count") k h,
  )

  -- Logging counts one event, up to the width of the counter.
  pub nb_events-logged :
      (content : EventInfo) (st : LedgerStorage S)
      → nb_events p (logged p content st) ≡ (nb_events p st + 1) % u64_mod
  unfolding nb_events event_batch key_for_event
  nb_events-logged content st = rw (value-logged content st event_count_root)

  -- The entry can be read back under its key.
  pub value-logged_self :
      (content : EventInfo) (st : LedgerStorage S)
      → value p (logged p content st) (key_for_event (p.add_id st.latest_tid 1))
        ≡ some (event (next_log p content st))
  unfolding event_batch
  value-logged_self content st =
      rw (value-logged content st (key_for_event (p.add_id st.latest_tid 1)))
        (rw (bytes_eq_refl (key_for_event (p.add_id st.latest_tid 1))))

  pub latest_tid-logged :
      (content : EventInfo) (st : LedgerStorage S)
      → (logged p content st).latest_tid ≡ p.add_id st.latest_tid 1
  unfolding logged committed written
  latest_tid-logged content st = ground arith

-- ===== src/KvStore/Laws.antt =====
-- What the writes of the key-value store do: each succeeds, logs one event, and changes no other
-- key outside of the event log.
use many_framework.Prelude.{
  ◌+◌, ◌%◌, ◌≡◌, refl, true, Option, [], ◌∷◌, Bytes, codes, if◌then◌else◌, arith,
}
use many_framework.Types.{EventInfo, Value, put, event, be_u64, Batch, ok}
use many_framework.Platform.{Platform, IsPlatform, batch_get, is_sorted}
use many_framework.Storage.State.{◌>>◌}
use many_framework.Storage.Keys.{key_for_event, event_count_root, pad_id}
use many_framework.Storage.Basic.{u64_mod}
use many_framework.Storage.Event.Laws.{outside_log, other_key}
use many_framework.KvStore.Store.{
  KvStoreStorage, kv_apply, apply_or_panic, commit_store, commit_unless_blockchain, kv_now,
  kv_new_event_id, kv_nb_events, kv_log_event,
}

module _ {S : Type 0} (p : Platform S) where
  abbrev pub kv_value : KvStoreStorage S → Bytes → Option Value
  kv_value st k = p.get st.persistent_store k

  -- The storage after a batch that is accepted.
  unfoldable pub kv_written : Batch → KvStoreStorage S → KvStoreStorage S
  kv_written b st = record st { persistent_store = p.apply_unchecked st.persistent_store b }

  -- The storage after `commit_unless_blockchain`.
  unfoldable pub kv_committed : KvStoreStorage S → KvStoreStorage S
  kv_committed st =
      if st.blockchain then st else record st { persistent_store = p.commit st.persistent_store }

  -- The entries of an event.
  unfoldable pub kv_event_batch : EventInfo → KvStoreStorage S → Batch
  kv_event_batch content st =
      let id = p.add_id st.latest_event_id 1 in
      (key_for_event id, put (event (record { id = id; time = kv_now p st; content = content })))
      ∷ (event_count_root, put (be_u64 ((kv_nb_events p st + 1) % u64_mod)))
      ∷ []

  -- The storage after an event is logged.
  unfoldable pub kv_logged : EventInfo → KvStoreStorage S → KvStoreStorage S
  kv_logged content st = kv_committed (
      kv_written (kv_event_batch content st)
        (record st { latest_event_id = p.add_id st.latest_event_id 1 }))

  -- The storage after a batch and the event that goes with it.
  unfoldable pub kv_stored : Batch → EventInfo → KvStoreStorage S → KvStoreStorage S
  kv_stored b content st = kv_committed (kv_logged content (kv_written b st))

  commit_unless_blockchain_lem :
      (st : KvStoreStorage S) → commit_unless_blockchain p st ≡ (ok tt, kv_committed st)
  unfolding commit_unless_blockchain commit_store kv_committed
  commit_unless_blockchain_lem st = ground arith

module _ {S : Type 0} (p : Platform S) (l : IsPlatform p) where
  kv_apply_sorted :
      (b : Batch) (st : KvStoreStorage S)
      → is_sorted b ≡ true
      → kv_apply p b st ≡ (ok tt, kv_written p b st)
  unfolding kv_apply kv_written
  kv_apply_sorted b st h = ground (arith, l.apply_lem st.persistent_store b)

  apply_or_panic_sorted :
      (b : Batch) (st : KvStoreStorage S)
      → is_sorted b ≡ true
      → apply_or_panic p b st ≡ (ok tt, kv_written p b st)
  unfolding apply_or_panic kv_written
  apply_or_panic_sorted b st h = ground (arith, l.apply_lem st.persistent_store b)

  kv_event_batch-sorted :
      (content : EventInfo) (st : KvStoreStorage S) → is_sorted (kv_event_batch p content st) ≡ true
  unfolding kv_event_batch key_for_event
  kv_event_batch-sorted content st = refl

  kv_log_event_lem :
      (content : EventInfo) (st : KvStoreStorage S)
      → kv_log_event p content st ≡ (ok tt, kv_logged p content st)
  unfolding kv_log_event kv_new_event_id kv_logged kv_event_batch kv_now
  kv_log_event_lem content st =
      let numbered = record st { latest_event_id = p.add_id st.latest_event_id 1 } in
      ground (
        arith,
        apply_or_panic_sorted (kv_event_batch p content st) numbered
            (kv_event_batch-sorted content st),
        commit_unless_blockchain_lem p (kv_written p (kv_event_batch p content st) numbered),
      )

  pub write_and_log_lem :
      (b : Batch) (content : EventInfo) (st : KvStoreStorage S)
      → is_sorted b ≡ true
      → (kv_apply p b >> (kv_log_event p content >> commit_unless_blockchain p)) st
        ≡ (ok tt, kv_stored p b content st)
  unfolding kv_stored
  write_and_log_lem b content st h = ground (
    arith,
    kv_apply_sorted b st h,
    kv_log_event_lem content (kv_written p b st),
    commit_unless_blockchain_lem p (kv_logged p content (kv_written p b st)),
  )

  value-kv_written :
      (b : Batch) (st : KvStoreStorage S) (k : Bytes)
      → is_sorted b ≡ true
      → kv_value p (kv_written p b st) k ≡ batch_get b k (kv_value p st k)
  unfolding kv_written
  value-kv_written b st k h = l.get-apply st.persistent_store b k h

  value-kv_committed :
      (st : KvStoreStorage S) (k : Bytes) → kv_value p (kv_committed p st) k ≡ kv_value p st k
  unfolding kv_committed
  value-kv_committed st k = ground (arith, l.get-commit st.persistent_store k)

  kv_event_batch-other :
      (content : EventInfo) (st : KvStoreStorage S) (k : Bytes) (old : Option Value)
      → outside_log k ≡ true
      → batch_get (kv_event_batch p content st) k old ≡ old
  unfolding kv_event_batch key_for_event
  kv_event_batch-other content st k old h = ground (
    arith,
    other_key (codes "/events") (b'/' ∷ pad_id (p.add_id st.latest_event_id 1)) k h,
    other_key (codes "/events") (codes "_count") k h,
  )

  value-kv_logged :
      (content : EventInfo) (st : KvStoreStorage S) (k : Bytes)
      → outside_log k ≡ true
      → kv_value p (kv_logged p content st) k ≡ kv_value p st k
  unfolding kv_logged
  value-kv_logged content st k h =
      let numbered = record st { latest_event_id = p.add_id st.latest_event_id 1 } in
      let b = kv_event_batch p content st in
      ground (
        arith,
        value-kv_committed (kv_written p b numbered) k,
        value-kv_written b numbered k (kv_event_batch-sorted content st),
        kv_event_batch-other content st k (kv_value p st k) h,
      )

  -- Outside the event log, the storage holds what the batch writes.
  pub value-kv_stored :
      (b : Batch) (content : EventInfo) (st : KvStoreStorage S) (k : Bytes)
      → is_sorted b ≡ true
      → outside_log k ≡ true
      → kv_value p (kv_stored p b content st) k ≡ batch_get b k (kv_value p st k)
  unfolding kv_stored
  value-kv_stored b content st k h other = ground (
    arith,
    value-kv_committed (kv_logged p content (kv_written p b st)) k,
    value-kv_logged content (kv_written p b st) k other,
    value-kv_written b st k h,
  )

-- ===== src/Storage/Event.antt =====
-- The event log: src/many-ledger/src/storage/event.rs.
pub mod Laws
use many_framework.Prelude.{⊤, ℕ, ◌+◌, ◌%◌, [], ◌∷◌}
use many_framework.Types.{EventId, EventInfo, EventLog, put, event, be_u64, ok}
use many_framework.Platform.{Platform}
use many_framework.Storage.State.{LedgerStorage, Action, gets, ◌>>=◌, ◌>>◌}
use many_framework.Storage.Keys.{key_for_event, event_count_root}
use many_framework.Storage.Basic.{u64_mod, counter_or_zero, apply, maybe_commit, now}

module _ {S : Type 0} (p : Platform S) where
  unfoldable pub new_event_id : Action S EventId
  new_event_id st = let id = p.add_id st.latest_tid 1 in (ok id, record st { latest_tid = id })

  unfoldable pub nb_events : LedgerStorage S → ℕ
  nb_events st = counter_or_zero (p.get st.persistent_store event_count_root)

  unfoldable pub log_event : EventInfo → Action S ⊤
  log_event content = do
    current_nb_events ← gets nb_events
    id ← new_event_id
    time ← gets (now p)
    apply p (
        (key_for_event id, put (event (record { id = id; time = time; content = content })))
        ∷ (event_count_root, put (be_u64 ((current_nb_events + 1) % u64_mod)))
        ∷ [])
    maybe_commit p

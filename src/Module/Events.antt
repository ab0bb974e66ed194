-- ===== src/Module/Events.antt =====
-- The handlers of the event log: src/many-ledger/src/module/event.rs and
-- src/many-kvstore/src/module/event.rs. What an event is about and its kind are methods of
-- many-modules, and parameters here.
use many_framework.Prelude.{
  ℕ, Bool, true, false, ◌||◌, ◌==◌, Option, none, some, List, [], ◌∷◌, Bytes, any, take,
  if◌then◌else◌, unwrap_or,
}
use Prim.Native.Nat.{min}
use many_framework.Types.{
  Address, Timestamp, EventId, EventLog, EventInfo, MultisigTransactionState, Value, event, Result,
  ok, err, deserialization_error,
}
use many_framework.Platform.{Platform}
use many_framework.Storage.State.{LedgerStorage}
use many_framework.Storage.Event.{nb_events}
use many_framework.Storage.Iterator.{
  SortOrder, indeterminate, CborRange, everything, contains_number, events_scoped_by_id,
  scoped_by_id,
}
use many_framework.KvStore.Store.{KvStoreStorage, kv_nb_events}

abbrev pub maximum_event_count : ℕ
maximum_event_count = 100

-- `EventLog::is_about` and `EventLog::kind`
pub record EventOps : Type 0 where
  pub is_about : EventLog → Address → Bool
  pub kind_of : EventLog → ℕ

-- `EventFilter`; each specific attribute is a list of states.
pub record EventFilter : Type 0 where
  pub account : Option (List Address)
  pub kind : Option (List ℕ)
  pub date_range : Option (CborRange Timestamp)
  pub id_range : Option (CborRange EventId)
  pub attribute_specific : List (List MultisigTransactionState)

pub record ListArgs : Type 0 where
  pub count : Option ℕ
  pub order : Option SortOrder
  pub filter : Option EventFilter

pub record ListReturns : Type 0 where
  pub nb_events : ℕ
  pub events : List EventLog

abbrev no_filter : EventFilter
no_filter = record {
  account = none;
  kind = none;
  date_range = none;
  id_range = none;
  attribute_specific = [];
}

-- `filter` on results; errors are propagated.
unfoldable pub filter_ok : (EventLog → Bool) → List (Result EventLog) → List (Result EventLog)
filter_ok f [] = []
filter_ok f (err e ∷ it) = err e ∷ filter_ok f it
filter_ok f (ok t ∷ it) = if f t then ok t ∷ filter_ok f it else filter_ok f it

abbrev pub about_any : EventOps → List Address → EventLog → Bool
about_any ops account t = any (ops.is_about t) account

abbrev pub kind_in : EventOps → List ℕ → EventLog → Bool
kind_in ops k t = any (λ x. x == ops.kind_of t) k

unfoldable pub filter_account :
    EventOps → List (Result EventLog) → Option (List Address) → List (Result EventLog)
filter_account ops it none = it
filter_account ops it (some account) = filter_ok (about_any ops account) it

unfoldable pub filter_event_kind :
    EventOps → List (Result EventLog) → Option (List ℕ) → List (Result EventLog)
filter_event_kind ops it none = it
filter_event_kind ops it (some k) = filter_ok (kind_in ops k) it

unfoldable pub filter_date : List (Result EventLog) → CborRange Timestamp → List (Result EventLog)
filter_date it range = filter_ok (λ t. contains_number range t.time) it

abbrev same_state : MultisigTransactionState → MultisigTransactionState → Bool
same_state MultisigTransactionState.pending MultisigTransactionState.pending = true
same_state MultisigTransactionState.executed_automatically
      MultisigTransactionState.executed_automatically =
    true
same_state MultisigTransactionState.executed_manually MultisigTransactionState.executed_manually =
    true
same_state MultisigTransactionState.withdrawn MultisigTransactionState.withdrawn = true
same_state MultisigTransactionState.expired MultisigTransactionState.expired = true
same_state _ _ = false

abbrev has_state : List MultisigTransactionState → MultisigTransactionState → Bool
has_state states s = any (same_state s) states

-- Whether an event leaves a held transaction in one of the states.
unfoldable pub leaves_state : List MultisigTransactionState → EventInfo → Bool
leaves_state states (EventInfo.multisig_submit account info token) =
    has_state states MultisigTransactionState.pending
leaves_state states (EventInfo.multisig_approve account token approver) =
    has_state states MultisigTransactionState.pending
leaves_state states (EventInfo.multisig_execute account token executer response) =
    has_state states MultisigTransactionState.executed_automatically
    || has_state states MultisigTransactionState.executed_manually
leaves_state states (EventInfo.multisig_withdraw account token withdrawer) =
    has_state states MultisigTransactionState.withdrawn
leaves_state states (EventInfo.multisig_expired account token) =
    has_state states MultisigTransactionState.expired
leaves_state states _ = false

unfoldable pub filter_attribute_specific :
    List (Result EventLog) → List (List MultisigTransactionState) → List (Result EventLog)
filter_attribute_specific it [] = it
filter_attribute_specific it (states ∷ attributes) =
    filter_attribute_specific (filter_ok (λ t. leaves_state states t.content) it) attributes

abbrev pub as_event : Value → Result EventLog
as_event (event t) = ok t
as_event _ = err deserialization_error

unfoldable pub decode_events : List (Bytes × Value) → List (Result EventLog)
decode_events [] = []
decode_events ((k, v) ∷ items) = as_event v ∷ decode_events items

-- `collect` into a result.
unfoldable pub collect : List (Result EventLog) → Result (List EventLog)
collect [] = ok []
collect (err e ∷ it) = err e
collect (ok t ∷ it) = elim (collect it) [ ok ts ↦ ok (t ∷ ts) | err e ↦ err e ]

abbrev pub limit : Option ℕ → ℕ
limit none = maximum_event_count
limit (some c) = min c maximum_event_count

abbrev listed : ℕ → Result (List EventLog) → Result ListReturns
listed n (ok ts) = ok (record { nb_events = n; events = ts })
listed n (err e) = err e

abbrev pub filter_of : ListArgs → EventFilter
filter_of args = unwrap_or args.filter no_filter

module _ {S : Type 0} (p : Platform S) (ops : EventOps) where
  unfoldable pub list : ListArgs → LedgerStorage S → Result ListReturns
  list args st =
      let f = filter_of args in
      let items = decode_events (
        events_scoped_by_id p (unwrap_or f.id_range everything) (unwrap_or args.order indeterminate)
          st.persistent_store) in
      let by_account = filter_account ops items f.account in
      let by_kind = filter_event_kind ops by_account f.kind in
      let by_date = filter_date by_kind (unwrap_or f.date_range everything) in
      let by_attribute = filter_attribute_specific by_date f.attribute_specific in
      listed (nb_events p st) (collect (take (limit args.count) by_attribute))

  -- The key-value store has no filter for specific attributes.
  unfoldable pub kv_list : ListArgs → KvStoreStorage S → Result ListReturns
  kv_list args st =
      let f = filter_of args in
      let items = decode_events (
        scoped_by_id p (unwrap_or f.id_range everything) (unwrap_or args.order indeterminate)
          st.persistent_store) in
      let by_account = filter_account ops items f.account in
      let by_kind = filter_event_kind ops by_account f.kind in
      let by_date = filter_date by_kind (unwrap_or f.date_range everything) in
      listed (kv_nb_events p st) (collect (take (limit args.count) by_date))

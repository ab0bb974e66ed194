-- ===== src/Storage/Send/Laws.antt =====
-- What a transfer does: it is refused for the reasons that the source names, with the storage
-- untouched, and otherwise moves the amount and nothing else.
use many_framework.Prelude.{
  ◌+◌, ◌-◌, ◌≤◌, ◌≡◌, ◌≢◌, refl, true, false, Option, some, Bytes, bytes_eq, bytes_cmp-flip,
  bytes_eq_iff, ◌==◌, ==_iff, ◌&&◌, if◌then◌else◌, arith,
}
use many_framework.Types.{
  Address, Symbol, TokenAmount, Memo, Value, Attributes, amount, Batch, EventInfo, ok,
}
use many_framework.Platform.{Platform, IsPlatform, batch_get, is_sorted}
use many_framework.Storage.State.{LedgerStorage}
use many_framework.Storage.Keys.{key_for_account_balance}
use many_framework.Storage.Keys.Distinct.{key_for_account_balance_eq}
use many_framework.Storage.Basic.Laws.{
  written, committed, value, apply_sorted, value-written, value-committed, maybe_commit_lem,
}
use many_framework.Storage.Event.Laws.{logged, log_event_lem, value-logged_other}
use many_framework.Storage.Balances.{get_balance}
use many_framework.Storage.Data.{data_attributes}
use many_framework.Storage.Data.Laws.{counted, update_account_count_lem, value-counted}
use many_framework.Storage.Send.{ordered_batch, send}

-- Whatever the order of two distinct keys, the batch is one that the store accepts.
ordered_batch-sorted :
    (kf kt : Bytes) (a b : TokenAmount)
    → bytes_eq kf kt ≡ false
    → is_sorted (ordered_batch kf a kt b) ≡ true
unfolding ordered_batch
ordered_batch-sorted kf kt a b h = ground (arith, bytes_cmp-flip kf kt)

pub batch_get-ordered_batch :
    (kf kt k : Bytes) (a b : TokenAmount) (old : Option Value)
    → bytes_eq kf kt ≡ false
    → batch_get (ordered_batch kf a kt b) k old ≡ (
        if bytes_eq kf k then some (amount a) else (if bytes_eq kt k then some (amount b) else old))
unfolding ordered_batch
batch_get-ordered_batch kf kt k a b old h =
    ground (arith, bytes_eq_iff kf k, bytes_eq_iff kt k, bytes_eq_iff kf kt, bytes_cmp-flip kf kt)

module _ {S : Type 0} (p : Platform S) where
  -- The batch of a transfer.
  unfoldable pub send_batch : Address → Address → Symbol → TokenAmount → LedgerStorage S → Batch
  send_batch from to symbol tokens st =
      ordered_batch (key_for_account_balance p.identity from symbol)
        (get_balance p from symbol st - tokens) (key_for_account_balance p.identity to symbol)
        (get_balance p to symbol st + tokens)

  -- The storage after a transfer, from the counters found.
  unfoldable pub sent :
      Option Attributes
      → Address
      → Address
      → Symbol
      → TokenAmount
      → Option Memo
      → LedgerStorage S
      → LedgerStorage S
  sent found from to symbol tokens memo st = committed p (
      logged p (EventInfo.send from to symbol tokens memo) (
        written p (send_batch from to symbol tokens st) (counted p found from to tokens symbol st)))

module _ {S : Type 0} (p : Platform S) (l : IsPlatform p) (from to : Address) (symbol : Symbol)
    (tokens : TokenAmount) (memo : Option Memo) (st : LedgerStorage S) where
  pub send_batch-sorted : from ≢ to → is_sorted (send_batch p from to symbol tokens st) ≡ true
  unfolding send_batch
  send_batch-sorted ne = ground (
    arith,
    ordered_batch-sorted (key_for_account_balance p.identity from symbol)
        (key_for_account_balance p.identity to symbol) (get_balance p from symbol st - tokens)
        (get_balance p to symbol st + tokens),
    key_for_account_balance_eq p.identity l.is_identity from to symbol symbol,
    ==_iff from to,
  )

  -- A transfer between two different named addresses of an amount that is covered succeeds.
  pub send_lem :
      {found : Option Attributes}
      → from ≢ to
      → tokens ≢ 0
      → p.is_anonymous from ≡ false
      → p.is_anonymous to ≡ false
      → tokens ≤ get_balance p from symbol st
      → data_attributes p st ≡ (ok found, st)
      → send p from to symbol tokens memo st ≡ (ok tt, sent p found from to symbol tokens memo st)
  unfolding send sent send_batch
  send_lem {found = found} ne pos af at cover counters = ground (
    arith,
    update_account_count_lem p l found from to tokens symbol st counters,
    apply_sorted p l (send_batch p from to symbol tokens st)
        (counted p found from to tokens symbol st) (send_batch-sorted ne),
    log_event_lem p l (EventInfo.send from to symbol tokens memo) (
        written p (send_batch p from to symbol tokens st)
          (counted p found from to tokens symbol st)),
    maybe_commit_lem p (
        logged p (EventInfo.send from to symbol tokens memo) (
          written p (send_batch p from to symbol tokens st)
            (counted p found from to tokens symbol st))),
  )

  -- What a balance key holds after a transfer.
  pub value-sent :
      (found : Option Attributes) (id : Address) (s : Symbol)
      → from ≢ to
      → let k = key_for_account_balance p.identity id s in
        value p (sent p found from to symbol tokens memo st) k
        ≡ batch_get (send_batch p from to symbol tokens st) k (value p st k)
  unfolding sent key_for_account_balance
  value-sent found id s ne =
      let k = key_for_account_balance p.identity id s in
      let counters = counted p found from to tokens symbol st in
      let moved = written p (send_batch p from to symbol tokens st) counters in
      ground (
        arith,
        value-committed p l (logged p (EventInfo.send from to symbol tokens memo) moved) k,
        value-logged_other p l (EventInfo.send from to symbol tokens memo) moved k refl,
        value-written p l (send_batch p from to symbol tokens st) counters k (send_batch-sorted ne),
        value-counted p l found from to tokens symbol st k refl,
      )

  -- The balances after a transfer, all of them.
  pub get_balance-sent :
      (found : Option Attributes) (id : Address) (s : Symbol)
      → from ≢ to
      → p.is_anonymous from ≡ false
      → p.is_anonymous to ≡ false
      → get_balance p id s (sent p found from to symbol tokens memo st) ≡ (
          if id == from && s == symbol
          then get_balance p from symbol st - tokens
          else (if id == to && s == symbol
              then get_balance p to symbol st + tokens
              else get_balance p id s st))
  unfolding get_balance send_batch
  get_balance-sent found id s ne af at = ground (
    arith,
    value-sent found id s ne,
    batch_get-ordered_batch (key_for_account_balance p.identity from symbol)
        (key_for_account_balance p.identity to symbol) (key_for_account_balance p.identity id s)
        (get_balance p from symbol st - tokens) (get_balance p to symbol st + tokens)
        (value p st (key_for_account_balance p.identity id s)),
    key_for_account_balance_eq p.identity l.is_identity from to symbol symbol,
    key_for_account_balance_eq p.identity l.is_identity from id symbol s,
    key_for_account_balance_eq p.identity l.is_identity to id symbol s,
    ==_iff from to,
  )

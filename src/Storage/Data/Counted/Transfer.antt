-- ===== src/Storage/Data/Counted/Transfer.antt =====
-- A transfer keeps the account counters equal to what the store holds.
use many_framework.Prelude.{
  ⊤, ℕ, ◌+◌, ◌-◌, ◌≤◌, ◌<◌, ◌≡◌, ◌≢◌, refl, true, false, ◌&&◌, ◌||◌, ◌==◌, ==_iff, not, Option,
  some, [], ◌∷◌, length, if◌then◌else◌, arith, ltb,
}
use many_framework.Types.{
  Address, Symbol, TokenAmount, Memo, Value, Attributes, attributes, EventInfo, put, Batch, Result,
  ok,
}
use many_framework.Platform.{Platform, IsPlatform}
use many_framework.Storage.State.{LedgerStorage}
use many_framework.Storage.Keys.{key_for_account_balance, data_attributes_key}
use many_framework.Storage.Keys.Distinct.{key_for_account_balance_eq}
use many_framework.Storage.Basic.{u64_mod}
use many_framework.Storage.Basic.Laws.{written, value, value-written, value-committed}
use many_framework.Storage.Event.Laws.{logged, value-logged_other}
use many_framework.Storage.Balances.{get_balance}
use many_framework.Storage.Data.{
  data_attributes, increment, decrement, modify_if, count_transfer, account_total_count_index,
  non_zero_account_total_count_index,
}
use many_framework.Storage.Data.Laws.{counted}
use many_framework.Storage.Send.{send}
use many_framework.Storage.Send.Laws.{
  sent, send_batch, send_batch-sorted, value-sent, batch_get-ordered_batch,
}
use many_framework.Storage.Send.Conservation.{send_outcome}
use many_framework.Storage.Data.Counted.{
  counter_of, counter_of-modify_if, Holdings, has_holding, AreDistinct, count_over,
  count_over-le-length, count-moved, IsCounted, is_held, is_non_zero, unless,
}

module _ {S : Type 0} (p : Platform S) (l : IsPlatform p) (from to : Address) (symbol : Symbol)
    (tokens : TokenAmount) (memo : Option Memo) (st : LedgerStorage S) (ne : from ≢ to) where
  value-sent_counters :
      (m : Attributes)
      → value p (sent p (some m) from to symbol tokens memo st) data_attributes_key
        ≡ some (attributes (count_transfer p from to tokens symbol st m))
  unfolding sent send_batch counted key_for_account_balance
  value-sent_counters m =
      let st1 = counted p (some m) from to tokens symbol st in
      let moved = written p (send_batch p from to symbol tokens st) st1 in
      let b : Batch =
        (data_attributes_key, put (attributes (count_transfer p from to tokens symbol st m)))
        ∷ [] in
      ground (
        arith,
        value-committed p l (logged p (EventInfo.send from to symbol tokens memo) moved)
            data_attributes_key,
        value-logged_other p l (EventInfo.send from to symbol tokens memo) moved data_attributes_key
            refl,
        value-written p l (send_batch p from to symbol tokens st) st1 data_attributes_key
            (send_batch-sorted p l from to symbol tokens memo st ne),
        batch_get-ordered_batch (key_for_account_balance p.identity from symbol)
            (key_for_account_balance p.identity to symbol) data_attributes_key
            (get_balance p from symbol st - tokens) (get_balance p to symbol st + tokens)
            (value p st1 data_attributes_key),
        key_for_account_balance_eq p.identity l.is_identity from to symbol symbol,
        ==_iff from to,
        value-written p l b st data_attributes_key refl,
      )

  -- What a balance key holds after a transfer, read from the key's address and symbol.
  value-sent_entry :
      (found : Option Attributes) (id : Address) (s : Symbol)
      → value p
          (sent p found from to symbol tokens memo st)
          (key_for_account_balance p.identity id s)
        ≡ (if id == from && s == symbol
            then some (Value.amount (get_balance p from symbol st - tokens))
            else (if id == to && s == symbol
                then some (Value.amount (get_balance p to symbol st + tokens))
                else value p st (key_for_account_balance p.identity id s)))
  unfolding send_batch
  value-sent_entry found id s = ground (
    arith,
    value-sent p l from to symbol tokens memo st found id s ne,
    batch_get-ordered_batch (key_for_account_balance p.identity from symbol)
        (key_for_account_balance p.identity to symbol) (key_for_account_balance p.identity id s)
        (get_balance p from symbol st - tokens) (get_balance p to symbol st + tokens)
        (value p st (key_for_account_balance p.identity id s)),
    key_for_account_balance_eq p.identity l.is_identity from to symbol symbol,
    key_for_account_balance_eq p.identity l.is_identity from id symbol s,
    key_for_account_balance_eq p.identity l.is_identity to id symbol s,
    ==_iff from to,
    ==_iff id from,
    ==_iff id to,
    ==_iff s symbol,
  )

module _ {S : Type 0} (p : Platform S) (l : IsPlatform p) (from to : Address) (symbol : Symbol)
    (tokens : TokenAmount) (memo : Option Memo) (st : LedgerStorage S) (entries : Holdings)
    (ne : from ≢ to) (pos : tokens ≢ 0) (af : p.is_anonymous from ≡ false)
    (at : p.is_anonymous to ≡ false) (cover : tokens ≤ get_balance p from symbol st)
    (d : AreDistinct entries) (hf : has_holding entries from symbol ≡ true)
    (ht : has_holding entries to symbol ≡ true) (bound : length entries < u64_mod) where
  abbrev after : Attributes → LedgerStorage S
  after m = sent p (some m) from to symbol tokens memo st

  is_held-source : is_held p st from symbol ≡ true
  unfolding get_balance
  is_held-source = ground arith

  is_non_zero-source : is_non_zero p st from symbol ≡ true
  unfolding get_balance
  is_non_zero-source = ground (arith, ==_iff (get_balance p from symbol st) 0)

  is_held-sent :
      (m : Attributes) (id : Address) (s : Symbol)
      → is_held p (after m) id s ≡ (
          if id == from && s == symbol
          then true
          else (if id == to && s == symbol then true else is_held p st id s))
  is_held-sent m id s =
      ground (arith, value-sent_entry p l from to symbol tokens memo st ne (some m) id s)

  is_non_zero-sent :
      (m : Attributes) (id : Address) (s : Symbol)
      → is_non_zero p (after m) id s ≡ (
          if id == from && s == symbol
          then not (get_balance p from symbol st == tokens)
          else (if id == to && s == symbol then true else is_non_zero p st id s))
  is_non_zero-sent m id s = ground (
    arith,
    value-sent_entry p l from to symbol tokens memo st ne (some m) id s,
    ==_iff (get_balance p from symbol st) tokens,
    ==_iff (get_balance p from symbol st - tokens) 0,
    ==_iff (get_balance p to symbol st + tokens) 0,
  )

  total-sent :
      (m : Attributes)
      → count_over (is_held p (after m)) entries
        ≡ count_over (is_held p st) entries + (if not (is_held p st to symbol) then 1 else 0)
  total-sent m = ground (
    arith,
    count-moved (is_held p st) (is_held p (after m)) from to symbol true ne is_held-source
        (is_held-sent m) entries d,
  )

  non_zero-sent :
      (m : Attributes)
      → count_over (is_non_zero p (after m)) entries
          + (if get_balance p from symbol st == tokens then 1 else 0)
        ≡ count_over (is_non_zero p st) entries
          + (if not (is_non_zero p st to symbol) then 1 else 0)
  non_zero-sent m = ground (
    arith,
    count-moved (is_non_zero p st) (is_non_zero p (after m)) from to symbol
        (not (get_balance p from symbol st == tokens)) ne is_non_zero-source (is_non_zero-sent m)
        entries d,
  )

  count_transfer_lem :
      (m : Attributes) (total non_zero : ℕ)
      → counter_of account_total_count_index m ≡ some total
      → counter_of non_zero_account_total_count_index m ≡ some non_zero
      → (counter_of account_total_count_index (count_transfer p from to tokens symbol st m)
          ≡ some (if is_held p st to symbol then total else increment total))
        × (counter_of non_zero_account_total_count_index
              (count_transfer p from to tokens symbol st m)
            ≡ some (
                let filled = if is_non_zero p st to symbol then non_zero else increment non_zero in
                if get_balance p from symbol st == tokens then decrement filled else filled))
  unfolding count_transfer get_balance
  count_transfer_lem m total non_zero h h' =
      let a = not (is_held p st to symbol) in
      let b = not (is_non_zero p st to symbol) in
      let c = get_balance p from symbol st == tokens in
      let t = account_total_count_index in
      let n = non_zero_account_total_count_index in
      let m1 = modify_if a t increment m in
      let m2 = modify_if b n increment m1 in
      ground (
        arith,
        counter_of-modify_if a t t increment m,
        counter_of-modify_if a t n increment m,
        counter_of-modify_if b n t increment m1,
        counter_of-modify_if b n n increment m1,
        counter_of-modify_if c n t decrement m2,
        counter_of-modify_if c n n decrement m2,
      )

  data_attributes-sent :
      (m : Attributes)
      → data_attributes p (after m)
        ≡ (ok (some (count_transfer p from to tokens symbol st m)), after m)
  unfolding data_attributes
  data_attributes-sent m =
      ground (arith, value-sent_counters p l from to symbol tokens memo st ne m)

  sent-IsCounted : (before : IsCounted p entries st) → IsCounted p entries (after before.counters)
  sent-IsCounted before =
      let m = before.counters in
      let counts =
        count_transfer_lem m (count_over (is_held p st) entries)
          (count_over (is_non_zero p st) entries) before.total before.non_zero in
      record {
        counters = count_transfer p from to tokens symbol st m;
        found = data_attributes-sent m;
        total =
            ground
              (arith, counts.0, total-sent m, count_over-le-length (is_held p (after m)) entries);
        non_zero = ground (
          arith,
          counts.1,
          non_zero-sent m,
          count_over-le-length (is_non_zero p (after m)) entries,
        );
      }

module _ {S : Type 0} (p : Platform S) (l : IsPlatform p) (from to : Address) (symbol : Symbol)
    (tokens : TokenAmount) (memo : Option Memo) (st : LedgerStorage S) (entries : Holdings) where
  -- Take any list of fewer than 2^64 pairs of an address and a symbol, no pair twice, that has the
  -- sender's and the receiver's. If the two account counters are the numbers of the listed pairs
  -- that the store has a balance entry for, and has a balance other than zero for, then they still
  -- are after a transfer, whether the transfer is refused or goes through.
  pub send-IsCounted :
      AreDistinct entries
      → has_holding entries from symbol ≡ true
      → has_holding entries to symbol ≡ true
      → length entries < u64_mod
      → IsCounted p entries st
      → IsCounted p entries ((send p from to symbol tokens memo st).1)
  send-IsCounted d hf ht bound before =
      let m = before.counters in
      let P = λ (result : Result ⊤ × LedgerStorage S). IsCounted p entries (result.1) in
      rw (send_outcome p l from to symbol tokens memo st {found = some m} before.found) (
        unless P (from == to) before (λ a. unless P (tokens == 0) before (λ b.
          unless P (p.is_anonymous to || p.is_anonymous from) before (λ c.
            unless P (ltb (get_balance p from symbol st) tokens) before (λ e.
              sent-IsCounted p l from to symbol tokens memo st entries
                (ground (arith, a, ==_iff from to)) (ground (arith, b, ==_iff tokens 0))
                (ground (arith, c)) (ground (arith, c)) (ground (arith, e)) d hf ht bound
                before)))))

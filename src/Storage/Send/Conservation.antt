-- ===== src/Storage/Send/Conservation.antt =====
-- A transfer neither makes nor loses tokens, and its outcome on every branch.
use many_framework.Prelude.{
  ⊤, ℕ, ◌+◌, ◌-◌, ◌≤◌, ◌≡◌, ◌≢◌, refl, ap, false, Option, List, [], ◌∷◌, ◌==◌, ==_iff, ◌&&◌, ◌||◌,
  ltb, if◌then◌else◌, arith,
}
use many_framework.Types.{
  Address, Symbol, TokenAmount, Memo, Attributes, ok, err, insufficient_funds,
  destination_is_source, amount_is_zero, anonymous_cannot_hold_funds,
}
use many_framework.Platform.{Platform, IsPlatform}
use many_framework.Storage.State.{LedgerStorage}
use many_framework.Storage.Basic.{contains}
use many_framework.Storage.Balances.{get_balance}
use many_framework.Storage.Data.{data_attributes}
use many_framework.Storage.Send.{send}
use many_framework.Storage.Send.Laws.{sent, send_lem, get_balance-sent}

abbrev pub sum_over : (ℕ → ℕ) → List ℕ → ℕ
sum_over f [] = 0
sum_over f (x ∷ xs) = f x + sum_over f xs

-- No address is listed twice.
abbrev pub IsDistinct : List ℕ → Type 0
IsDistinct [] = ⊤
IsDistinct (x ∷ xs) = (contains xs x ≡ false) × IsDistinct xs

module _ (f g : ℕ → ℕ) (x y t : ℕ) (ne : x ≢ y) (cover : t ≤ f x)
    (g_lem : (a : ℕ) → g a ≡ (if a == x then f x - t else (if a == y then f y + t else f a))) where
  sum-moved :
      (xs : List ℕ)
      → IsDistinct xs
      → sum_over g xs + (if contains xs x then t else 0)
        ≡ sum_over f xs + (if contains xs y then t else 0)
  sum-moved [] d = refl
  sum-moved (a ∷ xs) d =
      ground (arith, sum-moved xs d.1, g_lem a, ==_iff a x, ==_iff a y, ==_iff x y)

module _ {S : Type 0} (p : Platform S) (l : IsPlatform p) (from to : Address) (symbol : Symbol)
    (tokens : TokenAmount) (memo : Option Memo) (st : LedgerStorage S) where
  -- Where the account counters, if there are any, can be read: the first guard that fails decides
  -- the error, and then nothing is stored; where none fails the transfer goes through.
  pub send_outcome :
      {found : Option Attributes}
      → data_attributes p st ≡ (ok found, st)
      → send p from to symbol tokens memo st ≡ (
          if from == to
          then (err destination_is_source, st)
          else (if tokens == 0
              then (err amount_is_zero, st)
              else (if p.is_anonymous to || p.is_anonymous from
                  then (err anonymous_cannot_hold_funds, st)
                  else (if ltb (get_balance p from symbol st) tokens
                      then (err insufficient_funds, st)
                      else (ok tt, sent p found from to symbol tokens memo st)))))
  unfolding send
  send_outcome {found = found} counters = ground (
    arith,
    send_lem p l from to symbol tokens memo st {found = found},
    ==_iff from to,
    ==_iff tokens 0,
  )

  -- A transfer between two different named addresses, of a positive amount that is covered, with
  -- account counters that can be read, succeeds: the sender's balance of that token falls by the
  -- amount, the receiver's grows by it, and every other balance stays.
  pub send_balances :
      (found : Option Attributes) (id : Address) (s : Symbol)
      → data_attributes p st ≡ (ok found, st)
      → from ≢ to
      → tokens ≢ 0
      → p.is_anonymous from ≡ false
      → p.is_anonymous to ≡ false
      → tokens ≤ get_balance p from symbol st
      → let after = send p from to symbol tokens memo st in
        (after.0 ≡ ok tt)
        × (get_balance p id s after.1 ≡ (
            if id == from && s == symbol
            then get_balance p from symbol st - tokens
            else (if id == to && s == symbol
                then get_balance p to symbol st + tokens
                else get_balance p id s st)))
  send_balances found id s counters ne positive af at cover =
      let done =
        send_lem p l from to symbol tokens memo st {found = found} ne positive af at cover
          counters in
      (
        ground (arith, done),
        rw done (get_balance-sent p l from to symbol tokens memo st found id s ne af at),
      )

  sum_over-sent :
      (found : Option Attributes) (addresses : List Address)
      → from ≢ to
      → p.is_anonymous from ≡ false
      → p.is_anonymous to ≡ false
      → tokens ≤ get_balance p from symbol st
      → IsDistinct addresses
      → contains addresses from ≡ contains addresses to
      → sum_over
          (λ a. get_balance p a symbol (sent p found from to symbol tokens memo st))
          addresses
        ≡ sum_over (λ a. get_balance p a symbol st) addresses
  sum_over-sent found addresses ne af at cover d both = omega (
    arith,
    sum-moved (λ a. get_balance p a symbol st)
        (λ a. get_balance p a symbol (sent p found from to symbol tokens memo st)) from to tokens ne
        cover
        (λ a.
          ground
            (arith, get_balance-sent p l from to symbol tokens memo st found a symbol ne af at))
        addresses d,
    ap (λ b. if b then tokens else 0) both,
  )

  -- Whether it goes through or not, a transfer leaves the sum of the balances of any set of
  -- addresses that holds both ends or neither as it was, given that the account counters, if there
  -- are any, can be read.
  pub sum_over-send :
      (found : Option Attributes) (addresses : List Address)
      → data_attributes p st ≡ (ok found, st)
      → IsDistinct addresses
      → contains addresses from ≡ contains addresses to
      → sum_over (λ a. get_balance p a symbol (send p from to symbol tokens memo st).1) addresses
        ≡ sum_over (λ a. get_balance p a symbol st) addresses
  sum_over-send found addresses counters d both =
      ground (arith, send_outcome counters, sum_over-sent found addresses, ==_iff from to)

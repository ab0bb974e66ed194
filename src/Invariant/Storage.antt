-- ===== src/Invariant/Storage.antt =====
-- The methods of the storage that write neither accounts nor held transactions keep it sound.
use many_framework.Prelude.{
  ℕ, ◌≡◌, true, Option, Bytes, arith, ◌+◌, ◌-◌, ◌==◌, ◌||◌, ltb, Bool-cases, inl, inr,
}
use many_framework.Types.{Address, Symbol, TokenAmount, Memo, Batch, EventInfo}
use many_framework.Platform.{Platform, IsPlatform}
use many_framework.Storage.State.{LedgerStorage, ◌>>◌}
use many_framework.Storage.Keys.{key_for_account_balance}
use many_framework.Storage.Balances.{get_balance}
use many_framework.Storage.Basic.{
  apply, maybe_commit, inc_height, get_next_subresource, use_counter,
}
use many_framework.Storage.Basic.Subresources.{find_counter_same, identity_or_server_same}
use many_framework.Storage.Event.{log_event}
use many_framework.Storage.Data.{update_account_count, data_attributes}
use many_framework.Storage.Send.{send, ordered_batch}
use many_framework.Invariant.Sound.{
  Sound, is_plain, apply_plain-Sound, maybe_commit-Sound, log_event-Sound,
}

module _ {S : Type 0} (p : Platform S) (l : IsPlatform p) where
  update_account_count-Sound :
      (from to : Address) (n : TokenAmount) (symbol : Symbol) (st : LedgerStorage S)
      → Sound p st
      → Sound p (update_account_count p from to n symbol st).1
  unfolding update_account_count data_attributes
  update_account_count-Sound from to n symbol st h = grind (arith, apply_plain-Sound p l)

  write_and_log-Sound :
      (b : Batch) (content : EventInfo) (st : LedgerStorage S)
      → is_plain b ≡ true
      → Sound p st
      → Sound p ((apply p b >> (log_event p content >> maybe_commit p)) st).1
  write_and_log-Sound b content st plain h =
      grind (arith, apply_plain-Sound p l b, maybe_commit-Sound p l, log_event-Sound p l)

  ordered_batch-plain :
      (j : Bytes) (n : TokenAmount) (k : Bytes) (m : TokenAmount)
      → is_plain (ordered_batch j n k m) ≡ true
  unfolding ordered_batch
  ordered_batch-plain j n k m = ground arith

  -- `send` after its guards.
  move-Sound :
      (from to : Address) (symbol : Symbol) (n : TokenAmount) (b : Batch) (content : EventInfo)
      (st : LedgerStorage S)
      → is_plain b ≡ true
      → Sound p st
      → Sound p
          ((update_account_count p from to n symbol
              >> (apply p b >> (log_event p content >> maybe_commit p)))
            st).1
  move-Sound from to symbol n b content st plain h =
      grind (arith, write_and_log-Sound b content, update_account_count-Sound from to n symbol st)

  pub send-Sound :
      (from to : Address) (symbol : Symbol) (n : TokenAmount) (memo : Option Memo)
      (st : LedgerStorage S)
      → Sound p st
      → Sound p (send p from to symbol n memo st).1
  unfolding send
  send-Sound from to symbol n memo st h =
      let b =
        ordered_batch (key_for_account_balance p.identity from symbol)
          (get_balance p from symbol st - n) (key_for_account_balance p.identity to symbol)
          (get_balance p to symbol st + n) in
      let moved =
        move-Sound from to symbol n b (EventInfo.send from to symbol n memo) st
          (ordered_batch-plain _ _ _ _) h in
      elim (Bool-cases (from == to)) [
        | inl e ↦ ground (arith, e)
        | inr e₀ ↦ elim (Bool-cases (n == 0)) [
          | inl e ↦ ground (arith, e₀, e)
          | inr e₁ ↦ elim (Bool-cases (p.is_anonymous to || p.is_anonymous from)) [
            | inl e ↦ ground (arith, e₀, e₁, e)
            | inr e₂ ↦ elim (Bool-cases (ltb (get_balance p from symbol st) n)) [
              | inl e ↦ ground (arith, e₀, e₁, e₂, e)
              | inr e₃ ↦ ground (arith, e₀, e₁, e₂, e₃, moved)
            ]
          ]
        ]
      ]

  use_counter-Sound :
      (root : Bytes) (id : Address) (n : ℕ) (st : LedgerStorage S)
      → Sound p st
      → Sound p (use_counter p root id n st).1
  unfolding use_counter
  use_counter-Sound root id n st h = grind (arith, apply_plain-Sound p l, identity_or_server_same p)

  pub get_next_subresource-Sound :
      (root : Bytes) (st : LedgerStorage S)
      → Sound p st
      → Sound p (get_next_subresource p root st).1
  unfolding get_next_subresource
  get_next_subresource-Sound root st h =
      grind (arith, identity_or_server_same p, find_counter_same p, use_counter-Sound)

  inc_height-Sound : (st : LedgerStorage S) → Sound p st → Sound p (inc_height p st).1
  unfolding inc_height
  inc_height-Sound st h = grind (arith, apply_plain-Sound p l)

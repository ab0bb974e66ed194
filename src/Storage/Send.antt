-- ===== src/Storage/Send.antt =====
-- Sending tokens: src/many-ledger/src/storage/ledger_commands.rs.
pub mod Conservation
pub mod Laws
use many_framework.Prelude.{
  ⊤, ℕ, ◌+◌, ◌-◌, Bool, Option, [], ◌∷◌, Bytes, ◌||◌, ◌==◌, ltb, bytes_cmp, if◌then◌else◌,
}
use Prim.Native.Nat.{Ordering}
use many_framework.Types.{
  Address, Symbol, TokenAmount, Memo, put, amount, Batch, EventInfo, destination_is_source,
  amount_is_zero, anonymous_cannot_hold_funds, insufficient_funds,
}
use many_framework.Platform.{Platform}
use many_framework.Storage.State.{LedgerStorage, Action, gets, raise_if, ◌>>=◌, ◌>>◌}
use many_framework.Storage.Keys.{key_for_account_balance}
use many_framework.Storage.Basic.{apply, maybe_commit}
use many_framework.Storage.Event.{log_event}
use many_framework.Storage.Balances.{get_balance}
use many_framework.Storage.Data.{update_account_count}

-- The two writes in the order of their keys.
unfoldable pub ordered_batch : Bytes → TokenAmount → Bytes → TokenAmount → Batch
ordered_batch key_from amount_from key_to amount_to = elim (bytes_cmp key_from key_to) [
  | Ordering.gt ↦ (key_to, put (amount amount_to)) ∷ (key_from, put (amount amount_from)) ∷ []
  | _ ↦ (key_from, put (amount amount_from)) ∷ (key_to, put (amount amount_to)) ∷ []
]

module _ {S : Type 0} (p : Platform S) where
  unfoldable pub send : Address → Address → Symbol → TokenAmount → Option Memo → Action S ⊤
  send from to symbol tokens memo = do
    raise_if (from == to) destination_is_source
    raise_if (tokens == 0) amount_is_zero
    raise_if (p.is_anonymous to || p.is_anonymous from) anonymous_cannot_hold_funds
    amount_from ← gets (get_balance p from symbol)
    raise_if (ltb amount_from tokens) insufficient_funds
    amount_to ← gets (get_balance p to symbol)
    let batch =
        ordered_batch (key_for_account_balance p.identity from symbol) (amount_from - tokens)
          (key_for_account_balance p.identity to symbol) (amount_to + tokens)
    update_account_count p from to tokens symbol
    apply p batch
    log_event p (EventInfo.send from to symbol tokens memo)
    maybe_commit p

-- ===== src/Module/Send.antt =====
-- The handler of `ledger.send`: src/many-ledger/src/module/ledger_commands.rs.
use many_framework.Prelude.{⊤, true, false, none, some, [], ◌∷◌, ◌==◌, unwrap_or}
use many_framework.Types.{Address, can_ledger_transact, SendArgs, unauthorized}
use many_framework.Platform.{Platform}
use many_framework.Storage.State.{Action, pure, raise, lift, raise_if, ◌>>=◌, ◌>>◌}
use many_framework.Storage.Send as Storage
use many_framework.Storage.Accounts.{get_account, verify_account_role}

module _ {S : Type 0} (p : Platform S) where
  -- That the sender may send from an address.
  unfoldable pub may_send_from : Address → Address → Action S ⊤
  may_send_from sender from = elim (from == sender) [
    | true ↦ pure tt
    | false ↦ get_account p from >>= λ found. elim found [
      | none ↦ raise unauthorized
      | some a ↦
          lift (verify_account_role p a sender p.account_ledger_id (can_ledger_transact ∷ []))
    ]
  ]

  unfoldable pub send : Address → SendArgs → Action S ⊤
  send sender args = do
    let from = unwrap_or args.from sender
    raise_if (p.is_illegal from) unauthorized
    may_send_from sender from
    Storage.send p from args.to args.symbol args.amount args.memo

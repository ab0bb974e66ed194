-- ===== src/Module/Authority.antt =====
-- Senders that handlers refuse.
use many_framework.Prelude.{◌≡◌, true, false, ◌&&◌, ◌==◌, Bool, ◌⊎◌, Option, some, [], ◌∷◌, arith}
use many_framework.Types.{
  Address, Account, owner, can_ledger_transact, SetDescriptionArgs, RolesArgs, SendArgs, ok, err,
  Symbol, Distribution, Memo, user_needs_role, unauthorized, invalid_sender,
}
use many_framework.Platform.{Platform, IsPlatform, token_migration}
use many_framework.Storage.State.{LedgerStorage}
use many_framework.Storage.Accounts.{get_account, verify_account_role}
use many_framework.Storage.Tokens.{verify_tokens_sender}
use many_framework.Module.Accounts.{
  find_account, find_owned, set_description, add_roles, remove_roles, disable,
}
use many_framework.Module.Send.{may_send_from, send}
use many_framework.Module.Tokens.{token_identity, check_mint_burn, mint, burn}

module _ {S : Type 0} (p : Platform S) where
  -- A sender without the owner role of an enabled account can neither describe nor disable it, nor
  -- add or remove roles: each is refused with nothing changed.
  pub only_owners_change :
      (sender : Address) (a : Account) (description : SetDescriptionArgs) (roles : RolesArgs)
      (id : Address) (st : LedgerStorage S)
      → get_account p id st ≡ (ok (some a), st)
      → description.account ≡ id
      → roles.account ≡ id
      → p.has_role a sender owner ≡ false
      → (set_description p sender description st ≡ (err user_needs_role, st))
        × (add_roles p sender roles st ≡ (err user_needs_role, st))
        × (remove_roles p sender roles st ≡ (err user_needs_role, st))
        × (disable p sender id st ≡ (err user_needs_role, st))
  unfolding set_description add_roles remove_roles disable find_owned find_account
  only_owners_change sender a description roles id st found d r denied =
      (ground arith, ground arith, ground arith, ground arith)

module _ {S : Type 0} (p : Platform S) (l : IsPlatform p) where
  -- Sending from another address that is an enabled account, by a sender that is neither its owner
  -- nor, where it has the ledger feature, holds its transact role, is refused with nothing changed.
  pub stranger_cannot_send :
      (sender from : Address) (args : SendArgs) (a : Account) (st : LedgerStorage S)
      → args.from ≡ some from
      → (from == sender) ≡ false
      → get_account p from st ≡ (ok (some a), st)
      → p.has_role a sender owner ≡ false
      → (p.has_id a.features p.account_ledger_id && p.has_role a sender can_ledger_transact) ≡ false
      → let after = send p sender args st in
        ((after ≡ (err unauthorized, st)) ⊎ (after ≡ (err user_needs_role, st)))
  unfolding send may_send_from verify_account_role
  stranger_cannot_send sender from args a st given other found denied nor =
      ground (arith, l.needs_role_lem a sender (can_ledger_transact ∷ []))

  -- Where the token identity is known, a sender other than it neither mints nor burns, and nothing
  -- changes.
  pub only_token_identity_mints :
      (sender id : Address) (symbol : Symbol) (d : Distribution) (memo : Option Memo)
      (e : Option Bool) (st : LedgerStorage S)
      → st.migrations.is_active token_migration ≡ true
      → token_identity p st ≡ (ok id, st)
      → (sender == id) ≡ false
      → (mint p sender symbol d memo st ≡ (err invalid_sender, st))
        × (burn p sender symbol d memo e st ≡ (err invalid_sender, st))
  unfolding mint burn check_mint_burn verify_tokens_sender
  only_token_identity_mints sender id symbol d memo e st active known other =
      (ground arith, ground arith)

-- ===== src/Invariant/Requests.antt =====
-- The requests for tokens, accounts, held transactions and credentials that write to the ledger's
-- store, each with its handler of src/many-ledger/src/module, and that each handler keeps the storage
-- sound.
use many_framework.Prelude.{
  ℕ, ◌≡◌, true, Bool, Option, List, [], ◌∷◌, Bytes, arith, inl, inr, Option-cases,
}
use many_framework.Types.{
  Address, Symbol, Role, Memo, owner, Distribution, SendArgs, TokenCreateArgs, TokenUpdateArgs,
  TokenExtendedInfo, ExtendedInfoKey, CreateArgs, SetDescriptionArgs, RolesArgs, AddFeaturesArgs,
  SubmitOptions, SetDefaultsArgs, Transaction, Account, ok, EventInfo, can_tokens_create,
}
use many_framework.Platform.{Platform, IsPlatform}
use many_framework.Storage.State.{LedgerStorage}
use many_framework.Storage.Basic.{get_identity}
use many_framework.Storage.Basic.Subresources.{
  Result-cases, get_symbols_same, get_symbols_and_tickers_same,
}
use many_framework.Storage.Accounts.{verify_acl, add_account}
use many_framework.Storage.Accounts.Roles.{IsMap}
use many_framework.Storage.Tokens.{get_owner}
use many_framework.Storage.MintBurn.{burn_token}
use many_framework.Storage.Multisig.{
  create_multisig_transaction, set_multisig_defaults, revoke_multisig, withdraw_multisig,
}
use many_framework.Storage.Multisig.Execution.{approve_multisig, execute_multisig}
use many_framework.Module.Send as Send
use many_framework.Module.Send.{may_send_from}
use many_framework.Module.Tokens as MintBurn
use many_framework.Module.Tokens.{token_identity, check_symbol_exists, check_mint_burn}
use many_framework.Module.Metadata as Tokens
use many_framework.Module.Metadata.{check_migration, check_listed, verify_owner}
use many_framework.Module.Accounts as Accounts
use many_framework.Module.Accounts.{find_account, find_owned}
use many_framework.Module.IdStore.{Bip39, StoreArgs, store_credential}
use many_framework.Invariant.IdStore.{store_credential-Sound}
use many_framework.Invariant.Sound.{Sound, IsWellFormed, log_event-Sound}
use many_framework.Invariant.Storage.{send-Sound}
use many_framework.Invariant.Tokens.{
  mint_token-Sound, burn_token-Sound, create_token-Sound, update_token-Sound,
  add_extended_info-Sound, remove_extended_info-Sound,
}
use many_framework.Invariant.Accounts.{
  get_account-own, get_account_same, add_new_account-Sound, disable_account-Sound,
  set_description-Sound, add_roles-Sound, remove_roles-Sound, add_features-Sound,
}
use many_framework.Invariant.Multisig.{
  withdraw_multisig-Sound, revoke_multisig-Sound, set_multisig_defaults-Sound,
  create_multisig_transaction-Sound,
}
use many_framework.Invariant.Execution.{approve_multisig-Sound, execute_multisig-Sound}

pub data Request : Type 0 where
  send : SendArgs → Request
  mint : Symbol → Distribution → Option Memo → Request
  burn : Symbol → Distribution → Option Memo → Option Bool → Request
  token_create : TokenCreateArgs → Request
  token_update : TokenUpdateArgs → Request
  token_add_extended_info : Symbol → TokenExtendedInfo → Option Memo → Request
  token_remove_extended_info : Symbol → List ExtendedInfoKey → Option Memo → Request
  account_create : CreateArgs → Request
  account_set_description : SetDescriptionArgs → Request
  account_add_roles : RolesArgs → Request
  account_remove_roles : RolesArgs → Request
  account_disable : Address → Request
  account_add_features : AddFeaturesArgs → Request
  multisig_submit : SubmitOptions → Transaction → Request
  multisig_set_defaults : SetDefaultsArgs → Request
  multisig_approve : Bytes → Request
  multisig_revoke : Bytes → Request
  multisig_execute : Bytes → Request
  multisig_withdraw : Bytes → Request
  idstore_store : StoreArgs → Request

-- What a decoder ensures of a request: its role maps are maps.
abbrev pub IsDecoded : Request → Type 0
IsDecoded (Request.account_add_roles args) = IsMap args.roles
IsDecoded (Request.account_remove_roles args) = IsMap args.roles
IsDecoded (Request.multisig_submit options tx) = IsWellFormed tx
IsDecoded _ = Unit {0}

module _ {S : Type 0} (p : Platform S) (dict : Bip39) (is_cose_key : Bytes → Bool) where
  -- The storage after a request, whatever its handler answers; `fuel` bounds the nesting of
  -- executions.
  unfoldable pub handle : ℕ → Address → Request → LedgerStorage S → LedgerStorage S
  handle fuel sender (Request.send args) st = (Send.send p sender args st).1
  handle fuel sender (Request.mint symbol d memo) st = (MintBurn.mint p sender symbol d memo st).1
  handle fuel sender (Request.burn symbol d memo partly) st =
      (MintBurn.burn p sender symbol d memo partly st).1
  handle fuel sender (Request.token_create args) st = (Tokens.create p sender args st).1
  handle fuel sender (Request.token_update args) st = (Tokens.update p sender args st).1
  handle fuel sender (Request.token_add_extended_info symbol new memo) st =
      (Tokens.add_extended_info p sender symbol new memo st).1
  handle fuel sender (Request.token_remove_extended_info symbol keys memo) st =
      (Tokens.remove_extended_info p sender symbol keys memo st).1
  handle fuel sender (Request.account_create args) st = (Accounts.create p sender args st).1
  handle fuel sender (Request.account_set_description args) st =
      (Accounts.set_description p sender args st).1
  handle fuel sender (Request.account_add_roles args) st = (Accounts.add_roles p sender args st).1
  handle fuel sender (Request.account_remove_roles args) st =
      (Accounts.remove_roles p sender args st).1
  handle fuel sender (Request.account_disable id) st = (Accounts.disable p sender id st).1
  handle fuel sender (Request.account_add_features args) st =
      (Accounts.add_features p sender args st).1
  handle fuel sender (Request.multisig_submit options tx) st =
      (create_multisig_transaction p sender options tx st).1
  handle fuel sender (Request.multisig_set_defaults args) st =
      (set_multisig_defaults p sender args st).1
  handle fuel sender (Request.multisig_approve tx_id) st =
      (approve_multisig p fuel sender tx_id st).1
  handle fuel sender (Request.multisig_revoke tx_id) st = (revoke_multisig p sender tx_id st).1
  handle fuel sender (Request.multisig_execute tx_id) st =
      (execute_multisig p fuel sender tx_id st).1
  handle fuel sender (Request.multisig_withdraw tx_id) st = (withdraw_multisig p sender tx_id st).1
  handle fuel sender (Request.idstore_store args) st =
      (store_credential p dict is_cose_key sender args st).1

module _ {S : Type 0} (p : Platform S) (l : IsPlatform p) where
  may_send_from_same :
      (sender from : Address) (st : LedgerStorage S) → (may_send_from p sender from st).1 ≡ st
  unfolding may_send_from
  may_send_from_same sender from st = ground (arith, get_account_same p l from st)

  token_identity_same : (st : LedgerStorage S) → (token_identity p st).1 ≡ st
  unfolding token_identity get_identity
  token_identity_same st = ground arith

  check_mint_burn_same :
      (sender : Address) (symbol : Symbol) (st : LedgerStorage S)
      → (check_mint_burn p sender symbol st).1 ≡ st
  unfolding check_mint_burn check_symbol_exists
  check_mint_burn_same sender symbol st =
      ground (arith, token_identity_same st, get_symbols_same p st)

  check_migration_same : (st : LedgerStorage S) → (check_migration p st).1 ≡ st
  unfolding check_migration
  check_migration_same st = ground arith

  check_listed_same : (symbol : Symbol) (st : LedgerStorage S) → (check_listed p symbol st).1 ≡ st
  unfolding check_listed
  check_listed_same symbol st = ground (arith, get_symbols_same p st)

  verify_acl_same :
      (sender id : Address) (roles : List Role) (feature : ℕ) (st : LedgerStorage S)
      → (verify_acl p sender id roles feature st).1 ≡ st
  unfolding verify_acl
  verify_acl_same sender id roles feature st = ground (arith, get_account_same p l id st)

  get_owner_same : (symbol : Symbol) (st : LedgerStorage S) → (get_owner p symbol st).1 ≡ st
  unfolding get_owner
  get_owner_same symbol st = ground arith

  verify_owner_same :
      (sender : Address) (symbol : Symbol) (role : Role) (st : LedgerStorage S)
      → (verify_owner p sender symbol role st).1 ≡ st
  unfolding verify_owner
  verify_owner_same sender symbol role st =
      let same = get_owner_same symbol st in
      elim (Result-cases (get_owner p symbol st).0) [
        | inl (o, read) ↦ elim (Option-cases o) [
          | inl ownerless ↦ ground (arith, same, read, ownerless)
          | inr (id, owned) ↦ ground (
            arith,
            same,
            read,
            owned,
            verify_acl_same sender id (role ∷ []) p.token_account_ledger_id st,
          )
        ]
        | inr (e, missing) ↦ ground (arith, same, missing)
      ]

  find_account_same : (id : Address) (st : LedgerStorage S) → (find_account p id st).1 ≡ st
  unfolding find_account
  find_account_same id st = ground (arith, get_account_same p l id st)

  find_account-own :
      (id : Address) (st : LedgerStorage S) (a : Account)
      → Sound p st
      → (find_account p id st).0 ≡ ok a
      → p.has_role a id owner ≡ true
  unfolding find_account
  find_account-own id st a h e =
      grind (arith, get_account_same p l id st, get_account-own p l id st a h)

  find_owned_same :
      (sender id : Address) (st : LedgerStorage S) → (find_owned p sender id st).1 ≡ st
  unfolding find_owned
  find_owned_same sender id st = grind (arith, find_account_same id st)

  find_owned-own :
      (sender id : Address) (st : LedgerStorage S) (a : Account)
      → Sound p st
      → (find_owned p sender id st).0 ≡ ok a
      → p.has_role a id owner ≡ true
  unfolding find_owned
  find_owned-own sender id st a h e =
      grind (arith, find_account_same id st, find_account-own id st a h)

  token_create-Sound :
      (sender : Address) (args : TokenCreateArgs) (st : LedgerStorage S)
      → Sound p st
      → Sound p (Tokens.create p sender args st).1
  unfolding Tokens.create
  token_create-Sound sender args st h = grind (
    arith,
    check_migration_same st,
    token_identity_same st,
    λ (id : Address).
        verify_acl_same sender id (can_tokens_create ∷ []) p.token_account_ledger_id st,
    get_symbols_and_tickers_same p st,
    create_token-Sound p l sender args st h,
  )

  token_update-Sound :
      (sender : Address) (args : TokenUpdateArgs) (st : LedgerStorage S)
      → Sound p st
      → Sound p (Tokens.update p sender args st).1
  unfolding Tokens.update
  token_update-Sound sender args st h = grind (
    arith,
    check_migration_same,
    verify_owner_same,
    check_listed_same,
    update_token-Sound p l sender args,
  )
  -- A request that was decoded keeps a sound storage sound.

module _ {S : Type 0} (p : Platform S) (l : IsPlatform p) (dict : Bip39)
    (is_cose_key : Bytes → Bool) where
  pub handle-Sound :
      (fuel : ℕ) (sender : Address) (r : Request) (st : LedgerStorage S)
      → IsDecoded r
      → Sound p st
      → Sound p (handle p dict is_cose_key fuel sender r st)
  unfolding handle Send.send MintBurn.mint MintBurn.burn Tokens.add_extended_info
      Tokens.remove_extended_info Accounts.create add_account Accounts.set_description
      Accounts.add_roles Accounts.remove_roles Accounts.disable Accounts.add_features
  handle-Sound fuel sender (Request.send args) st decoded h =
      grind (arith, may_send_from_same p l, send-Sound p l)
  handle-Sound fuel sender (Request.mint symbol d memo) st decoded h =
      grind (arith, check_mint_burn_same p l, mint_token-Sound p l, log_event-Sound p l)
  handle-Sound fuel sender (Request.burn symbol d memo partly) st decoded h =
      let burned = burn_token-Sound p l symbol d st h in
      ground (
        arith,
        check_mint_burn_same p l sender symbol st,
        burned,
        log_event-Sound p l (EventInfo.token_burn symbol d memo) (burn_token p symbol d st).1
            burned,
      )
  handle-Sound fuel sender (Request.token_create args) st decoded h =
      token_create-Sound p l sender args st h
  handle-Sound fuel sender (Request.token_update args) st decoded h =
      token_update-Sound p l sender args st h
  handle-Sound fuel sender (Request.token_add_extended_info symbol new memo) st decoded h =
      grind (arith, check_migration_same p l, verify_owner_same p l, add_extended_info-Sound p l)
  handle-Sound fuel sender (Request.token_remove_extended_info symbol keys memo) st decoded h =
      grind (arith, check_migration_same p l, verify_owner_same p l, remove_extended_info-Sound p l)
  handle-Sound fuel sender (Request.account_create args) st decoded h =
      grind (arith, add_new_account-Sound p l)
  handle-Sound fuel sender (Request.account_set_description args) st decoded h =
      grind (arith, find_owned_same p l, find_owned-own p l, set_description-Sound p l)
  handle-Sound fuel sender (Request.account_add_roles args) st decoded h =
      grind (arith, find_owned_same p l, find_owned-own p l, add_roles-Sound p l)
  handle-Sound fuel sender (Request.account_remove_roles args) st decoded h =
      grind (arith, find_owned_same p l, find_owned-own p l, remove_roles-Sound p l)
  handle-Sound fuel sender (Request.account_disable id) st decoded h =
      grind (arith, find_owned_same p l, disable_account-Sound p l)
  handle-Sound fuel sender (Request.account_add_features args) st decoded h =
      grind (arith, find_account_same p l, find_account-own p l, add_features-Sound p l)
  handle-Sound fuel sender (Request.multisig_submit options tx) st decoded h =
      create_multisig_transaction-Sound p l sender options tx st decoded h
  handle-Sound fuel sender (Request.multisig_set_defaults args) st decoded h =
      set_multisig_defaults-Sound p l sender args st h
  handle-Sound fuel sender (Request.multisig_approve tx_id) st decoded h =
      approve_multisig-Sound p l fuel sender tx_id st h
  handle-Sound fuel sender (Request.multisig_revoke tx_id) st decoded h =
      revoke_multisig-Sound p l sender tx_id st h
  handle-Sound fuel sender (Request.multisig_execute tx_id) st decoded h =
      execute_multisig-Sound p l fuel sender tx_id st h
  handle-Sound fuel sender (Request.multisig_withdraw tx_id) st decoded h =
      withdraw_multisig-Sound p l sender tx_id st h
  handle-Sound fuel sender (Request.idstore_store args) st decoded h =
      store_credential-Sound p l dict is_cose_key sender args st h

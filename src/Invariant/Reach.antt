-- ===== src/Invariant/Reach.antt =====
-- The storages that the ledger reaches by requests from any senders and by the start of blocks, which
-- sets the clock. The end of a block, where held transactions expire and migrations run, is no step.
use many_framework.Prelude.{◌≡◌, true, ℕ, Bool, Bytes, some}
use many_framework.Types.{Address, Account, Timestamp, owner, ok}
use many_framework.Platform.{Platform, IsPlatform}
use many_framework.Storage.State.{LedgerStorage}
use many_framework.Storage.Basic.{set_time}
use many_framework.Storage.Accounts.{get_account_even_disabled}
use many_framework.Module.IdStore.{Bip39}
use many_framework.Invariant.Sound.{Sound}
use many_framework.Invariant.Accounts.{get_account_even_disabled-own}
use many_framework.Invariant.Requests.{Request, IsDecoded, handle, handle-Sound}

module _ {S : Type 0} (p : Platform S) (dict : Bip39) (is_cose_key : Bytes → Bool)
    (first : LedgerStorage S) where
  -- The storages reached from a first one by requests and by the start of blocks.
  pub data Reach : LedgerStorage S → Type 0 where
    start : Reach first
    request :
        {st : LedgerStorage S} (fuel : ℕ) (sender : Address) (r : Request)
        → IsDecoded r
        → Reach st
        → Reach (handle p dict is_cose_key fuel sender r st)
    begin_block : {st : LedgerStorage S} (time : Timestamp) → Reach st → Reach (set_time p time st)

module _ {S : Type 0} (p : Platform S) (l : IsPlatform p) (dict : Bip39)
    (is_cose_key : Bytes → Bool) (first : LedgerStorage S) (sound : Sound p first) where
  set_time-Sound :
      (time : Timestamp) (st : LedgerStorage S) → Sound p st → Sound p (set_time p time st)
  unfolding set_time
  set_time-Sound time st h = record { at = λ k. h.at k }

  Reach-Sound : {st : LedgerStorage S} → Reach p dict is_cose_key first st → Sound p st
  Reach-Sound start = sound
  Reach-Sound (request fuel sender r decoded before) =
      handle-Sound p l dict is_cose_key fuel sender r _ decoded (Reach-Sound before)
  Reach-Sound (begin_block time before) = set_time-Sound time _ (Reach-Sound before)

  -- From a storage in which every account owns itself and the role maps of the held transactions are
  -- maps, whatever decoded requests to change tokens, accounts, held transactions and credentials are
  -- handled in whatever order, from whatever senders, and whenever the clock is set between them,
  -- every account that is found, disabled or not, owns itself. Commits at the end of a block are not
  -- among these steps.
  pub every_account_owns_itself :
      {st : LedgerStorage S} (id : Address) (a : Account)
      → Reach p dict is_cose_key first st
      → (get_account_even_disabled p id st).0 ≡ ok (some a)
      → p.has_role a id owner ≡ true
  every_account_owns_itself id a reached found =
      get_account_even_disabled-own p l id _ a (Reach-Sound reached) found

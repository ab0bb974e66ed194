-- ===== src/Storage/State.antt =====
-- `LedgerStorage` (src/many-ledger/src/storage.rs) and its methods as state-passing functions. A
-- method that fails returns an error beside the storage as it was left: nothing is rolled back.
use many_framework.Prelude.{⊤, Bool, true, false, Option, none, some, Bytes}
use many_framework.Types.{Timestamp, EventId, ManyError, Result, ok, err}
use many_framework.Platform.{Migrations}

pub record LedgerStorage (S : Type 0) : Type 0 where
  pub persistent_store : S
  pub blockchain : Bool
  pub latest_tid : EventId
  pub current_time : Option Timestamp
  pub current_hash : Option Bytes
  pub migrations : Migrations

-- A method of an object with the state T.
abbrev pub Method : Type 0 → Type 0 → Type 0
Method T A = T → Result A × T

abbrev pub Action : Type 0 → Type 0 → Type 0
Action S A = Method (LedgerStorage S) A

module _ {T A : Type 0} where
  abbrev pub pure : A → Method T A
  pure a st = (ok a, st)

  abbrev pub raise : ManyError → Method T A
  raise e st = (err e, st)

  abbrev pub gets : (T → A) → Method T A
  gets f st = (ok (f st), st)

  -- `?` on a value of type `Result`.
  abbrev pub lift : Result A → Method T A
  lift r st = (r, st)

  abbrev pub or_raise : Option A → ManyError → Method T A
  or_raise none e = raise e
  or_raise (some a) e = pure a

infixl 5 ◌>>=◌ ◌>>◌
abbrev pub ◌>>=◌ : {T A B : Type 0} → Method T A → (A → Method T B) → Method T B
◌>>=◌ m f st = let (r, st') = m st in elim r [ ok a ↦ f a st' | err e ↦ (err e, st') ]

abbrev pub ◌>>◌ : {T B : Type 0} → Method T ⊤ → Method T B → Method T B
m >> k = m >>= λ _. k

abbrev pub raise_if : {T : Type 0} → Bool → ManyError → Method T ⊤
raise_if true e = raise e
raise_if false e = pure tt

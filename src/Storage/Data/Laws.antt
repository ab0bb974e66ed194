-- ===== src/Storage/Data/Laws.antt =====
-- Updating the account counters succeeds when the store holds any, and touches nothing else.
use many_framework.Prelude.{◌≡◌, refl, Bytes, Option, none, some, ◌∷◌, [], bytes_eq, arith, false}
use many_framework.Types.{Address, Symbol, TokenAmount, Attributes, attributes, put, ok}
use many_framework.Platform.{Platform, IsPlatform}
use many_framework.Storage.State.{LedgerStorage}
use many_framework.Storage.Keys.{data_attributes_key}
use many_framework.Storage.Basic.Laws.{written, value, apply_sorted, value-written}
use many_framework.Storage.Data.{data_attributes, count_transfer, update_account_count}

module _ {S : Type 0} (p : Platform S) where
  -- The storage after the counters are updated, from the counters found.
  unfoldable pub counted :
      Option Attributes
      → Address
      → Address
      → TokenAmount
      → Symbol
      → LedgerStorage S
      → LedgerStorage S
  counted none from to tokens symbol st = st
  counted (some m) from to tokens symbol st =
      written p
        ((data_attributes_key, put (attributes (count_transfer p from to tokens symbol st m))) ∷ [])
        st

module _ {S : Type 0} (p : Platform S) (l : IsPlatform p) where
  pub update_account_count_lem :
      (found : Option Attributes) (from to : Address) (tokens : TokenAmount) (symbol : Symbol)
      (st : LedgerStorage S)
      → data_attributes p st ≡ (ok found, st)
      → update_account_count p from to tokens symbol st
        ≡ (ok tt, counted p found from to tokens symbol st)
  unfolding update_account_count counted
  update_account_count_lem none from to tokens symbol st h = ground arith
  update_account_count_lem (some m) from to tokens symbol st h = ground (
    arith,
    apply_sorted p l
        ((data_attributes_key, put (attributes (count_transfer p from to tokens symbol st m))) ∷ [])
        st refl,
  )

  pub value-counted :
      (found : Option Attributes) (from to : Address) (tokens : TokenAmount) (symbol : Symbol)
      (st : LedgerStorage S) (k : Bytes)
      → bytes_eq data_attributes_key k ≡ false
      → value p (counted p found from to tokens symbol st) k ≡ value p st k
  unfolding counted
  value-counted none from to tokens symbol st k h = refl
  value-counted (some m) from to tokens symbol st k h = ground (
    arith,
    value-written p l
        ((data_attributes_key, put (attributes (count_transfer p from to tokens symbol st m))) ∷ [])
        st k refl,
  )

-- ===== src/Storage/Keys/Distinct.antt =====
-- Keys of one kind tell their parts: two addresses and symbols never share a balance, and no two
-- accounts, symbols or extended infos share an entry.
use many_framework.Prelude.{
  ◌≡◌, ap, ◌∷◌, ◌++◌, Bytes, codes, bytes_eq, bytes_eq_iff, ◌==◌, ◌&&◌, some, ==_iff,
  split_at_separator, append_cancel, arith, sym, ◌∙◌,
}
use many_framework.Types.{Address, Symbol}
use many_framework.Platform.{Identity, IsIdentity}
use many_framework.Storage.Keys.{
  key_for_account_balance, key_for_account, key_for_symbol, key_for_ext_info,
}

module _ (i : Identity) (l : IsIdentity i) where
  address_text-injective : (a b : Address) → i.address_text a ≡ i.address_text b → a ≡ b
  address_text-injective a b h =
      some_eq (sym (l.from-text a) ∙ ap i.address_from_text h ∙ l.from-text b)
    where
      some_eq : some a ≡ some b → a ≡ b
      some_eq e = cc

  text_eq :
      (ps : Bytes) (a b : Address)
      → bytes_eq (ps ++ i.address_text a) (ps ++ i.address_text b) ≡ (a == b)
  text_eq ps a b = ground (
    arith,
    bytes_eq_iff (ps ++ i.address_text a) (ps ++ i.address_text b),
    append_cancel ps (i.address_text a) (i.address_text b),
    address_text-injective a b,
    ==_iff a b,
  )

  -- Two balance keys are equal exactly when they are of one address and one symbol.
  pub key_for_account_balance_eq :
      (a b : Address) (s t : Symbol)
      → bytes_eq (key_for_account_balance i a s) (key_for_account_balance i b t)
        ≡ (a == b && s == t)
  unfolding key_for_account_balance
  key_for_account_balance_eq a b s t = ground (
    arith,
    bytes_eq_iff (key_for_account_balance i a s) (key_for_account_balance i b t),
    append_cancel (codes "/balances/") (i.address_text a ++ b'/' ∷ i.address_text s)
        (i.address_text b ++ b'/' ∷ i.address_text t),
    split_at_separator b'/' (i.address_text a) (i.address_text b) (i.address_text s)
        (i.address_text t),
    l.text_lacks_slash a,
    l.text_lacks_slash b,
    address_text-injective a b,
    address_text-injective s t,
    ==_iff a b,
    ==_iff s t,
  )

  pub key_for_account_eq :
      (a b : Address) → bytes_eq (key_for_account i a) (key_for_account i b) ≡ (a == b)
  unfolding key_for_account
  key_for_account_eq = text_eq (codes "/accounts/")

  pub key_for_symbol_eq :
      (a b : Symbol) → bytes_eq (key_for_symbol i a) (key_for_symbol i b) ≡ (a == b)
  unfolding key_for_symbol
  key_for_symbol_eq = text_eq (codes "/config/symbols/")

  pub key_for_ext_info_eq :
      (a b : Symbol) → bytes_eq (key_for_ext_info i a) (key_for_ext_info i b) ≡ (a == b)
  unfolding key_for_ext_info
  key_for_ext_info_eq = text_eq (codes "/config/ext_info/")

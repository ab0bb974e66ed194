-- ===== src/Migration/Data/Laws.antt =====
-- The migration sets the account counters to what the store holds.
use many_framework.Prelude.{
  ◌≡◌, refl, ⊤, ℕ, ◌+◌, ◌≤◌, ◌<◌, ◌==◌, some, List, [], ◌∷◌, Bytes, length, if◌then◌else◌, arith,
  ◌∙◌, ap, sym,
}
use many_framework.Types.{
  Address, Symbol, TokenAmount, Value, amount, put, attributes, data_infos, Batch, ok,
}
use many_framework.Platform.{Platform, IsPlatform}
use many_framework.Storage.State.{LedgerStorage}
use many_framework.Storage.Keys.{key_for_account_balance, data_attributes_key}
use many_framework.Storage.Basic.{u64_mod}
use many_framework.Storage.Data.{data_attributes}
use many_framework.Storage.Data.Counted.{Holdings, IsCounted, count_over, is_held, is_non_zero}
use many_framework.Migration.Store.{apply_to}
use many_framework.Migration.Data.{
  data_info_key, balances_root_bytes, count_entries, data_info, data_value, get_data_from_db,
  initialize_data,
}

-- Who holds how much of what.
abbrev pub Funds : Type 0
Funds = List ((Address × Symbol) × TokenAmount)

abbrev pub holdings : Funds → Holdings
holdings [] = []
holdings ((e, n) ∷ funds) = e ∷ holdings funds

abbrev non_zero_funds : Funds → ℕ
non_zero_funds [] = 0
non_zero_funds ((e, n) ∷ funds) = (if n == 0 then 0 else 1) + non_zero_funds funds

non_zero_funds-le : (funds : Funds) → non_zero_funds funds ≤ length funds
non_zero_funds-le [] = omega arith
non_zero_funds-le ((e, n) ∷ funds) = ground (arith, non_zero_funds-le funds)

module _ {S : Type 0} (p : Platform S) where
  -- The entries of the store for them, and that the store has them.
  abbrev pub fund_entries : Funds → List (Bytes × Value)
  fund_entries [] = []
  fund_entries (((id, s), n) ∷ funds) =
      (key_for_account_balance p.identity id s, amount n) ∷ fund_entries funds

  abbrev pub AreHeld : S → Funds → Type 0
  AreHeld store [] = ⊤
  AreHeld store (((id, s), n) ∷ funds) =
      (p.get store (key_for_account_balance p.identity id s) ≡ some (amount n))
      × AreHeld store funds

  count_entries_lem :
      (funds : Funds) (a b : ℕ)
      → a + length funds < u64_mod
      → b + length funds < u64_mod
      → count_entries (fund_entries funds) a b ≡ (a + length funds, b + non_zero_funds funds)
  unfolding count_entries
  count_entries_lem [] a b h k = ground arith
  count_entries_lem ((e, n) ∷ funds) a b h k =
      ground (arith, count_entries_lem funds (a + 1) b, count_entries_lem funds (a + 1) (b + 1))

  count_over-is_held :
      (st : LedgerStorage S) (funds : Funds)
      → AreHeld st.persistent_store funds
      → count_over (is_held p st) (holdings funds) ≡ length funds
  count_over-is_held st [] h = refl
  count_over-is_held st ((e, n) ∷ funds) h = ground (arith, h.0, count_over-is_held st funds h.1)

  count_over-is_non_zero :
      (st : LedgerStorage S) (funds : Funds)
      → AreHeld st.persistent_store funds
      → count_over (is_non_zero p st) (holdings funds) ≡ non_zero_funds funds
  count_over-is_non_zero st [] h = refl
  count_over-is_non_zero st ((e, n) ∷ funds) h =
      ground (arith, h.0, count_over-is_non_zero st funds h.1)

module _ {S : Type 0} (p : Platform S) (l : IsPlatform p) where
  abbrev counters_batch : ℕ → ℕ → Batch
  counters_batch a b =
      (data_attributes_key, put (attributes (data_value a b)))
      ∷ (data_info_key, put (data_infos data_info))
      ∷ []

  AreHeld-apply :
      (store : S) (a b : ℕ) (funds : Funds)
      → AreHeld p store funds
      → AreHeld p (p.apply_unchecked store (counters_batch a b)) funds
  unfolding key_for_account_balance
  AreHeld-apply store a b [] h = tt
  AreHeld-apply store a b (((id, s), n) ∷ funds) h = (
    l.get-apply store (counters_batch a b) (key_for_account_balance p.identity id s) refl ∙ h.0,
    AreHeld-apply store a b funds h.1,
  )

  initialize_data_lem :
      (store : S) (funds : Funds)
      → p.iter_prefix store balances_root_bytes ≡ fund_entries p funds
      → length funds < u64_mod
      → initialize_data p store
        ≡ (ok tt, p.apply_unchecked store (counters_batch (length funds) (non_zero_funds funds)))
  unfolding initialize_data get_data_from_db apply_to
  initialize_data_lem store funds h low = ground (
    arith,
    h,
    count_entries_lem p funds 0 0,
    l.apply_lem store (counters_batch (length funds) (non_zero_funds funds)),
  )

  data_attributes-initialize_data :
      (st : LedgerStorage S) (a b : ℕ)
      → let after = record st {
        persistent_store = p.apply_unchecked st.persistent_store (counters_batch a b);
      } in
        data_attributes p after ≡ (ok (some (data_value a b)), after)
  unfolding data_attributes
  data_attributes-initialize_data st a b =
      ground (arith, l.get-apply st.persistent_store (counters_batch a b) data_attributes_key refl)

  -- Where the entries under the key of the balances are those of fewer than 2^64 pairs of an address
  -- and a symbol, and are committed: the migration succeeds, and afterwards the two account counters
  -- are the numbers of these pairs that the store has a balance entry for, and has a balance other
  -- than zero for. A transfer then keeps this.
  pub initialize_data-IsCounted :
      (st : LedgerStorage S) (funds : Funds)
      → p.iter_prefix st.persistent_store balances_root_bytes ≡ fund_entries p funds
      → AreHeld p st.persistent_store funds
      → length funds < u64_mod
      → let after = initialize_data p st.persistent_store in
        (after.0 ≡ ok tt) × IsCounted p (holdings funds) (record st { persistent_store = after.1 })
  unfolding data_value
  initialize_data-IsCounted st funds h held low =
      let a = length funds in
      let b = non_zero_funds funds in
      let store = p.apply_unchecked st.persistent_store (counters_batch a b) in
      let after = record st { persistent_store = store } in
      let kept = AreHeld-apply st.persistent_store a b funds held in
      let counted : IsCounted p (holdings funds) after = record {
        counters = data_value a b;
        found = data_attributes-initialize_data st a b;
        total = ap some (sym (count_over-is_held p after funds kept));
        non_zero = ap some (sym (count_over-is_non_zero p after funds kept));
      } in
      rw (initialize_data_lem st.persistent_store funds h low) (refl, counted)

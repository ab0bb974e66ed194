-- ===== src/Migration/Data.antt =====
-- The account counters are set from the store: src/many-ledger/src/migration/data.rs.
pub mod Laws
use many_framework.Prelude.{⊤, ℕ, ◌==◌, List, [], ◌∷◌, Bytes, codes, if◌then◌else◌}
use many_framework.Types.{
  Value, put, Attributes, attributes, DataInfo, DataInfos, data_infos, counter,
}
use many_framework.Platform.{Platform}
use many_framework.Storage.State.{Method}
use many_framework.Storage.Keys.{data_attributes_key}
use many_framework.Storage.Balances.{as_amount}
use many_framework.Storage.Data.{
  account_total_count_index, non_zero_account_total_count_index, increment,
}
use many_framework.Migration.Store.{apply_to}

abbrev pub data_info_key : Bytes
data_info_key = codes "/data/info"

abbrev pub balances_root_bytes : Bytes
balances_root_bytes = codes "/balances"

-- The loop of `get_data_from_db`, from the counts so far.
unfoldable pub count_entries : List (Bytes × Value) → ℕ → ℕ → ℕ × ℕ
count_entries [] num_unique_accounts num_non_zero_account =
    (num_unique_accounts, num_non_zero_account)
count_entries ((k, v) ∷ items) num_unique_accounts num_non_zero_account =
    count_entries items (increment num_unique_accounts)
      (if as_amount v == 0 then num_non_zero_account else increment num_non_zero_account)

unfoldable pub data_info : DataInfos
data_info =
    (account_total_count_index, record { shortname = codes "accountTotalCount" })
    ∷ (non_zero_account_total_count_index, record { shortname = codes "nonZeroAccountTotalCount" })
    ∷ []

unfoldable pub data_value : ℕ → ℕ → Attributes
data_value num_unique_accounts num_non_zero_account =
    (account_total_count_index, counter num_unique_accounts)
    ∷ (non_zero_account_total_count_index, counter num_non_zero_account)
    ∷ []

module _ {S : Type 0} (p : Platform S) where
  unfoldable pub get_data_from_db : S → ℕ × ℕ
  get_data_from_db storage = count_entries (p.iter_prefix storage balances_root_bytes) 0 0

  -- `initialize`
  unfoldable pub initialize_data : Method S ⊤
  initialize_data storage =
      let counts = get_data_from_db storage in
      apply_to p
        ((data_attributes_key, put (attributes (data_value counts.0 counts.1)))
          ∷ (data_info_key, put (data_infos data_info))
          ∷ [])
        storage

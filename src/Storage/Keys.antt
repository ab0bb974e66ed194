-- ===== src/Storage/Keys.antt =====
-- The keys of the persistent store: storage.rs, storage/account.rs, storage/event.rs,
-- storage/multisig.rs, storage/ledger_tokens.rs, storage/data.rs and storage/idstore.rs of
-- src/many-ledger/src.
pub mod Distinct
use many_framework.Prelude.{
  ℕ, ◌-◌, Bool, ◌∷◌, ◌++◌, Bytes, codes, length, take, replicate, ltb, if◌then◌else◌,
}
use many_framework.Types.{Address, Symbol, EventId}
use many_framework.Platform.{Identity}

abbrev pub symbols_root : Bytes
symbols_root = codes "/config/symbols"

abbrev pub identity_root : Bytes
identity_root = codes "/config/identity"

abbrev pub height_root : Bytes
height_root = codes "/height"

abbrev pub symbols_root_dash : Bytes
symbols_root_dash = codes "/config/symbols/"

abbrev pub token_identity_root : Bytes
token_identity_root = codes "/config/token_identity"

abbrev pub account_identity_root : Bytes
account_identity_root = codes "/config/account_identity"

abbrev pub account_subresource_id_root : Bytes
account_subresource_id_root = codes "/config/account_id"

abbrev pub events_root : Bytes
events_root = codes "/events/"

abbrev pub event_count_root : Bytes
event_count_root = codes "/events_count"

abbrev pub multisig_transactions_root : Bytes
multisig_transactions_root = codes "/multisig/"

abbrev pub data_attributes_key : Bytes
data_attributes_key = codes "/data/attributes"

abbrev pub idstore_root : Bytes
idstore_root = codes "/idstore/"

abbrev pub idstore_seed_root : Bytes
idstore_seed_root = codes "/config/idstore_seed"

abbrev pub event_id_key_size_in_bytes : ℕ
event_id_key_size_in_bytes = 32

-- Cut to 32 bytes, with zeros in front.
unfoldable pub pad_id : Bytes → Bytes
pad_id id =
    let kept =
      if ltb event_id_key_size_in_bytes (length id)
      then take event_id_key_size_in_bytes id
      else id in
    replicate (event_id_key_size_in_bytes - length kept) 0 ++ kept

unfoldable pub key_for_event : EventId → Bytes
key_for_event id = events_root ++ pad_id id

unfoldable pub key_for_multisig_transaction : Bytes → Bytes
key_for_multisig_transaction token = multisig_transactions_root ++ pad_id token

module _ (i : Identity) where
  unfoldable pub key_for_account_balance : Address → Symbol → Bytes
  key_for_account_balance id symbol =
      codes "/balances/" ++ (i.address_text id ++ b'/' ∷ i.address_text symbol)

  unfoldable pub key_for_subresource_counter : Address → Bool → Bytes
  key_for_subresource_counter id token_migration_active =
      if token_migration_active
      then codes "/config/subresource_counter/" ++ i.address_text id
      else account_subresource_id_root

  unfoldable pub key_for_account : Address → Bytes
  key_for_account id = codes "/accounts/" ++ i.address_text id

  unfoldable pub key_for_symbol : Symbol → Bytes
  key_for_symbol symbol = codes "/config/symbols/" ++ i.address_text symbol

  unfoldable pub key_for_ext_info : Symbol → Bytes
  key_for_ext_info symbol = codes "/config/ext_info/" ++ i.address_text symbol

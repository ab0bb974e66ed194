-- ===== src/Types/Errors.antt =====
-- The errors that the ledger raises: src/many-ledger/src/error.rs, and those of many-modules that
-- the ledger's code names. Addresses and symbols are only compared, so they are numbers.
use many_framework.Prelude.{ℕ, Bytes}

-- An address of the network; a symbol is one too.
abbrev pub Address : Type 0
Address = ℕ

abbrev pub Symbol : Type 0
Symbol = Address

abbrev pub Timestamp : Type 0
Timestamp = ℕ

-- The messages of `ManyError::unknown`.
pub data Message : Type 0 where
  feature_already_part ticker_already_exists symbol_was_not_found symbol_not_in_storage : Message
  token_is_immutable invalid_time missing_metadata missing_total_supply unknown_identity : Message
  entropy_failed metadata_needed unknown_symbol_for_identity no_extended_info : Message
  unresolved_symbol migrations_failed missing_parameter symbol_not_in_list : Message
  unimplemented invalid_hash_length invalid_transaction_hash : Message
  invalid_async_token unable_to_cast search_failed status_failed : Message

pub data ManyError : Type 0 where
  unauthorized insufficient_funds anonymous_cannot_hold_funds : ManyError
  destination_is_source amount_is_zero storage_key_not_found : ManyError
  unexpected_subresource_id : ℕ → ℕ → ManyError
  unexpected_account_id : Address → Address → ManyError
  token_info_not_found ext_info_not_found : Symbol → ManyError
  invalid_sender : ManyError
  ticker_exists : Bytes → ManyError
  subresource_exhausted : Address → ManyError
  symbol_not_found : Symbol → ManyError
  over_maximum_supply : Symbol → ℕ → ℕ → ManyError
  missing_funds : Symbol → ℕ → ℕ → ManyError
  unable_to_distribute_zero : Address → ManyError
  partial_burn_disabled storage_apply_failed invalid_initial_state : ManyError
  unable_to_load_migrations : ManyError
  -- many-modules and many-error
  unknown_account : Address → ManyError
  user_needs_role account_must_own_itself empty_feature unknown_role : ManyError
  attribute_not_found deserialization_error invalid_from_identity : ManyError
  transaction_type_unsupported transaction_cannot_be_found : ManyError
  transaction_expired_or_withdrawn user_cannot_approve_transaction : ManyError
  cannot_execute_transaction invalid_subresource invalid_identity : ManyError
  invalid_address invalid_credential_id recall_phrase_generation_failed : ManyError
  existing_entry entry_not_found invalid_method_name : ManyError
  unexpected_transport_error serialization_error transport_error : ManyError
  unknown_block : ManyError
  -- src/many-kvstore/src/error.rs
  permission_denied key_disabled anon_alt_denied subres_alt_unsupported : ManyError
  key_not_found cannot_disable_empty_key : ManyError
  unknown : Message → ManyError
  -- `unwrap`, `expect` or `unimplemented!` reached, and a call stack without end
  panic out_of_fuel : ManyError

pub data Result {ℓ} (A : Type ℓ) : Type ℓ where
  ok : A → Result A
  err : ManyError → Result A

-- `Either` of many-types.
pub data Either (A B : Type 0) : Type 0 where
  left : A → Either A B
  right : B → Either A B

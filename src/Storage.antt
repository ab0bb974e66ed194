-- ===== src/Storage.antt =====
-- src/many-ledger/src/storage.rs and the files of src/many-ledger/src/storage.
pub mod State
pub mod Keys
pub mod Basic
pub mod Event
pub mod Balances
pub mod Data
pub mod Send
pub mod Tokens
pub mod MintBurn
pub mod Accounts
pub mod Multisig
pub mod IdStore
pub mod Commit
pub mod Genesis
pub mod Load
pub mod Iterator

-- ===== src/Invariant.antt =====
-- What holds of the ledger's storage between two messages, whatever was asked of it.
pub mod IdStore
pub mod Sound
pub mod Storage
pub mod Accounts
pub mod Multisig
pub mod Execution
pub mod Tokens
pub mod Requests
pub mod Reach

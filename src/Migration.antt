-- ===== src/Migration.antt =====
-- The migrations of the ledger, which change the store itself: src/many-ledger/src/migration.
pub mod Store
pub mod Data
pub mod Tokens
pub mod Memo

-- ===== src/KvStore.antt =====
-- The key-value store server: src/many-kvstore/src.
pub mod Store
pub mod Accounts
pub mod Handlers
pub mod AccountHandlers
pub mod Laws
pub mod Entries
pub mod Refinement
pub mod Changes
pub mod Delegates
pub mod Directory
pub mod Commands
pub mod Ownership

-- ===== src/Storage/Tokens.antt =====
-- Tokens: src/many-ledger/src/storage/ledger_tokens.rs.
mod Metadata
mod Changes
unfoldable pub use Metadata.*
unfoldable pub use Changes.*

-- ===== src/Module.antt =====
-- The handlers of the ledger's modules: src/many-ledger/src/module. Each is called with the sender
-- of the message, checks what the sender may do, and calls the storage.
pub mod Queries
pub mod Accounts
pub mod Tokens
pub mod Send
pub mod Authority
pub mod Metadata
pub mod IdStore
pub mod Events

-- ===== src/Abci.antt =====
-- The bridge between Tendermint and a MANY server: src/many-abci.
pub mod Messages
pub mod App
pub mod Frontend
pub mod Blockchain

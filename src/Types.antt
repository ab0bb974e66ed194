-- ===== src/Types.antt =====
-- The data that the ledger stores and passes on: the messages of many-modules and many-types in
-- the shape in which src/many-ledger uses them.
mod Errors
mod Accounts
mod Tokens
mod Transactions
mod Events
mod Values
pub use Errors.*
pub use Accounts.*
pub use Tokens.*
pub use Transactions.*
pub use Events.*
pub use Values.*

-- ===== src/Platform.antt =====
-- What the ledger takes from code outside the repository: the merk store, many-identity,
-- many-modules and many-migration. The operations are parameters of the model, and what is
-- documented of them is a record of laws beside each.
mod Stores
mod Addresses
mod Accounts
mod Rest
pub use Stores.*
pub use Addresses.*
pub use Accounts.*
unfoldable pub use Rest.*

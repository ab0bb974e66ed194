-- ===== src/Lib.antt =====
-- The MANY ledger and the MANY key-value store: the state machines that src/many-ledger and
-- src/many-kvstore run behind Tendermint, and the bridge of src/many-abci that drives them.
--
-- The ledger keeps everything in one authenticated key-value store (merk): balances, tokens,
-- accounts, held multisig transactions, an event log and its own configuration. `LedgerStorage`
-- wraps the store with the block's time, the next event id and the active migrations. The handlers
-- of src/many-ledger/src/module check what the sender of a message may do and call the methods of
-- `LedgerStorage`, which read keys, write one batch at a time, log an event and, outside of a
-- blockchain, commit.
--
-- Prelude: names of the libraries, Boolean tests, lists and byte strings.
-- Types: the data that is stored and passed on. The shapes are those of many-modules and
-- many-types, as far as the ledger's code uses them; Types/Errors has the errors of
-- src/many-ledger/src/error.rs.
-- Platform: code outside of the repository as parameters: the store `merk`, addresses
-- (many-identity), the methods of `Account` and `FeatureSet` (many-modules), event ids, extended
-- token information and migrations. `IsPlatform` holds what is documented of them: a batch is
-- accepted exactly when its keys ascend, what is written is read, an address's text tells it and
-- has no slash, roles that are added or removed are those that are read, and an encoded recall
-- phrase is a CBOR array.
-- Storage: `LedgerStorage` of src/many-ledger/src/storage.rs. A method is an `Action`, a function
-- from the storage to a result and the storage it leaves; an error rolls nothing back.
-- Storage/Keys has the keys, Storage/Basic the methods of storage.rs, Storage/Event those of
-- storage/event.rs, Storage/Balances and Storage/Send those of storage/ledger.rs and
-- storage/ledger_commands.rs, Storage/Data the account counters of storage/data.rs,
-- Storage/Tokens storage/ledger_tokens.rs, Storage/MintBurn storage/ledger_mintburn.rs,
-- Storage/Accounts storage/account.rs with the checks of module/account.rs, Storage/Multisig
-- storage/multisig.rs, Storage/IdStore storage/idstore.rs, Storage/Iterator storage/iterator.rs
-- with the range iterator of the key-value store, and Storage/Commit storage/abci.rs.
-- `MigrationSet::update_at_height`, which a commit calls, is a parameter. Storage/Load is opening a
-- ledger that ran before, Storage/Genesis what a new one is given: `new`, `build` and the methods
-- `with_tokens`, `with_idstore` and `with_migrations`.
-- Module: the handlers of src/many-ledger/src/module for accounts, sending, minting and burning,
-- for creating and changing tokens, for listing events, where whom an event is about and its kind
-- are parameters, and for storing a credential, where the words of BIP 39 and the decoding of a key
-- are. Module/Queries has the handlers that only read.
-- KvStore: the server of src/many-kvstore, which keeps values under keys that have an owner.
-- KvStore/Store has the storage of src/many-kvstore/src/storage.rs and storage/event.rs,
-- KvStore/Accounts that of storage/account.rs with the checks of module/account.rs,
-- KvStore/Handlers the handlers of module.rs, and KvStore/AccountHandlers those of
-- module/account.rs. KvStore/Entries says what the server promises: a map from keys to their
-- metadata and contents, and put, disable and transfer on one entry of it. KvStore/Delegates reads
-- from a directory of accounts for whom a request acts, and KvStore/Commands has sequences of put,
-- disable and transfer requests; the requests that change accounts are not among these.
-- Migration: the migrations of src/many-ledger/src/migration, which change the store: Migration/Data
-- the account counters of data.rs, Migration/Tokens the counters of subresources and the token of
-- tokens.rs, Migration/Memo the memos of memo.rs. When a migration runs is decided by
-- many-migration.
-- Abci: the bridge between Tendermint and a MANY server, src/many-abci. Abci/Messages has what it
-- passes on, with the envelopes of coset, the messages of many-protocol and the server behind
-- many-client as parameters, Abci/App the application of abci_app.rs, Abci/Frontend the frontend of
-- many_app.rs, and Abci/Blockchain the modules of module.rs, where Tendermint's client is a
-- parameter.
-- Invariant: what requests to the ledger keep. Invariant/Sound has the invariant: each
-- stored account owns itself, and the role maps inside of held transactions are maps.
-- Invariant/Storage, Invariant/Tokens, Invariant/Accounts, Invariant/Multisig and
-- Invariant/Execution take the methods of the storage one by one, Invariant/Requests the handlers,
-- Invariant/IdStore the storing of credentials, and Invariant/Reach has the storages that requests
-- and the starts of blocks reach; the end of a block is no step there.
-- Tests: a concrete platform that obeys the laws, sample runs and the theorems at concrete inputs.
--
-- Numbers. Token amounts are unbounded, as in the source. `u64` and `u32` counters wrap at their
-- width. A system time is a number of seconds below 2 ^ 63.
--
-- Fuel. The search of `get_next_subresource` has one round for each counter up to the maximum,
-- which the code checks too. A held transaction may approve or execute another; the fuel of
-- `execute_tx` is the depth of these calls, and a deeper call is the error `out_of_fuel`, which the
-- model never turns into an answer.
--
-- Not modelled: failures of the disk, CBOR (a stored value is the data it encodes, and decoding a
-- value of another kind is an error), the texts of errors, and the command-line
-- programs.
pub mod Prelude
pub mod Types
pub mod Platform
pub mod Storage
pub mod Module
pub mod KvStore
pub mod Abci
pub mod Migration
pub mod Invariant
pub mod Tests

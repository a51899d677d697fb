-- ===== src/Lib.antt =====
-- Broadcast Pool keeps signed Bitcoin transactions in an encrypted table and hands each to the
-- network when its schedule and its nLockTime allow it. A tampered row stops the scheduler and
-- manual broadcasts.
--
-- Parts, from the inside out:
--
-- Platform is what the program only calls (chrono's RFC 3339 text, hex, UTF-8, the AEAD cipher,
-- HMAC, the printing of a float), as a record of functions; `Decodes` is the documented promise
-- that each decoder inverts its encoder.
-- Crypto (src/crypto/mod.rs) seals blobs and encodes text fields.
-- Models (src/db/models.rs) has the records; an f64 is a natural number of units of 2^-52, whose
-- rounding sums are parameters, a DateTime a natural number of nanoseconds since 1970.
-- Db (src/db/mod.rs, src/db/schema.rs) is the table as a list of rows: Db/Write has each statement
-- that changes it, Db/Read the queries, Db/Stats the statistics, Db/Archive the move of old rows,
-- Db/Open what opening a database does to its rows.
-- Pool (src/pool/manager.rs) is the state of PoolManager. Pool/Safe has the halt and the channels,
-- Pool/Health the choice of a chain source and its clock (with src/pool/chain_health.rs),
-- Pool/Mempool the retained transactions, Pool/Due the nLockTime gate and the due test,
-- Pool/Broadcast a broadcast and a round over the due rows, Pool/Tick the scheduler's tick and the
-- rebroadcast, Pool/Schedule the schedules of the user (with a test of src/price/mod.rs).
-- VirtualHeaders (src/electrum_server/virtual_headers.rs) makes up block headers above the chain
-- tip.
-- Transactions (src/pool/virtual_mempool.rs) is what the program reads of a raw transaction, and
-- Json the value type of serde_json; decoding and printing are parameters. Pool/Lookup finds a
-- transaction by id, Pool/Confirm looks for the broadcast ones in blocks. Scheduler
-- (src/pool/scheduler.rs) is the loop that runs the tick, Scheduler/Monitors the other loops.
-- Electrum (src/electrum_server/mod.rs) stands between the wallets and the indexer. Electrum/Lines
-- cuts a connection into lines, Electrum/Request reads a line, Electrum/Source tells the wallet
-- apart.
-- Electrum/Plan schedules a transaction that a wallet sends, Electrum/Ingest takes it into the
-- pool, Electrum/Intercept answers the wallet before that. Electrum/Serve answers any other
-- request, with Electrum/Headers for the tip; Electrum/Upstream, Electrum/Inject and
-- Electrum/Status change what the indexer says (src/pool/virtual_mempool.rs).
-- PriceFeed (src/price/mod.rs) is the price of a bitcoin: the providers in turn, a cache, a
-- fallback.
-- ArchiveKey (src/api/archive_key.rs) is the password and the cached key of the archive.
-- The other modules below these hold proofs. Examples has a concrete platform, a concrete pool,
-- and the theorems applied to them.
--
-- State is passed explicitly: an operation is a function from a state to a result and a state, so
-- a failure keeps the changes made before it. A mutex is a field of the state; its poisoning, and
-- calls that run at the same time, are not modelled. Every answer from outside (the clock, the
-- indexer, Bitcoin Core) is a function of the number of answers read before, so it may change
-- between any two calls. `sent` records each transaction handed to a backend; the program has no
-- such field. Fresh identifiers, nonces and random draws are arguments, and so is whether a task
-- under a timeout ends in time. Loops are recursion over a list or a count; the loop over the
-- lines of a buffer has fuel, and as many rounds as bytes are enough.
-- I/O failures of SQLite are not modelled.
--
-- Not modelled: the network clients, the HTTP API, the sockets of the Electrum server, its batches
-- and subscription relay, discovery, the configuration files and the command line, which are I/O
-- around these parts; the sleeps of the scheduler between two checks, the delivery of
-- notifications; migration plans and UTXOs, which are plain inserts and selects; fee estimates.
pub mod Prelude
pub mod Platform
pub mod Models
pub mod Crypto
pub mod Db
pub mod Pool
pub mod ArchiveKey
pub mod Electrum
pub mod Examples
pub mod Json
pub mod PriceFeed
pub mod Scheduler
pub mod Transactions
pub mod VirtualHeaders

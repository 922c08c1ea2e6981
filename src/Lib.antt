-- ===== src/Lib.antt =====
-- The backend of an e-wallet: users hold one wallet each, top it up by orders that are confirmed,
-- and transfer money to one another. PostgreSQL holds all state; every balance has an audit trail
-- of ledger entries, every request that writes carries an idempotency key, and events for the
-- notification service are written to an outbox in the transaction of the change they report.
--
-- A call of a service (internal/service) opens a transaction, runs statements of the repositories
-- (internal/repository) in it, and commits; a deferred rollback ends it on every other path.
--
--   Prelude      signed integers, Go's int64 with its wrap-around, tables as lists of rows
--   Model        internal/model and the tables of migrations/: one record per struct and per row;
--                `Db` holds the tables
--   Runtime      what the code runs on: `Exec` is a Go call that returns a value or an error and
--                leaves a `World` (committed tables, the open transaction, the sequences, a count of
--                requests to the database); `Statement` runs SQL in a transaction or on the pool;
--                `Inversion` and `Atomicity` hold the lemmas on calls that return and that fail,
--                `Reaching` those that show that a call returns
--   Repository   one function for each method of internal/repository, over one `Stmt` for each SQL
--                text; the constraints of migrations/ are checked where a row is written
--   Service      internal/service/wallet.go, idempotency.go and reference.go: `Amount` holds the
--                validations, `Reservation` the idempotency keys, `Wallet.Transfer` and
--                `Wallet.TopUp` the calls, `Wallet.Requests` sequences of them, with an abstract bank
--                (`Bank`) that they act as; `Books` says what it means that wallets and ledger
--                agree; `Wallet.Transfer.Ready` lists what a transfer needs to go through
--                `Publisher` is internal/service/outbox_publisher.go, `Auth` is auth.go
--                `History` holds the calls that read, `Sessions` the logout and the device list
--   Handler      internal/handler: `Replies` and `Status` are mapWalletError and mapAuthError,
--                `Numbers` is strconv.Atoi, `Wallet` and `Auth` the handlers, `Middleware` the check
--                of access tokens, `RateLimit` the limiter with its Lua script
--   Server       main.go: the routes, with the middleware and the limiters in front of the handlers
--   Tests        runs on small inputs
--
-- Names follow the code in snake_case: `transfer_with_idempotency` is TransferWithIdempotency. A
-- long method is cut where its branches are: `transfer_in_tx`, `transfer_reserved` and
-- `record_transfer` are consecutive parts of it.
--
-- Code that is not in the repository is a field of `Env`: which request to the database fails for
-- a reason outside its SQL (any may), whether a failed statement aborts its transaction (PostgreSQL
-- does), the clock, random bytes, json.Marshal, SHA-256 and the formats of times and numbers.
-- What a theorem assumes of them it says. The Redis stream of the publisher is a function from the
-- event and the count of requests to its answer; bcrypt and the signing of access tokens are a record of
-- functions, `Crypto`, and jwt.Parse is a function. `Runtime.Redis` is the interface of the Redis
-- server that keeps the blacklist and the counters: its operations, and what they are documented to
-- do; each command may fail on its way there or back (`Contact`). Where ORDER BY leaves rows equal,
-- a `Planner` decides in which order the database comes upon them, anew for each query. Whether the
-- query for pending events computes its condition for every pending row, or stops where LIMIT is
-- met, is `Env.scans_all`. How the limiter's `%v` writes an id, which gin's context holds as a
-- float64, is `Env.format_float`.
--
-- Ids of users and wallets are natural numbers. A Go int that is negative or a claim `id` that is
-- no whole number names no row; no such `to_wallet_id` or claim is modelled, nor is a token whose
-- `id` is no number, at which a handler's type assertion panics and gin recovers.
--
-- Ids are drawn from sequences, which do not roll back; an id that is taken violates the primary
-- key, as in the database. A statement that changes a row fails where its balance leaves the range
-- of a bigint. No loop needs fuel.
--
-- Transactions run one after the other: the code locks the rows it changes (FOR UPDATE) and relies
-- on unique indexes, and the interleaving of two transactions is not modelled. The calls of the auth
-- service other than Register have no transaction: their statements run on the pool, and Refresh
-- reads, checks and revokes a token without a lock. The development runs each such call to its end
-- before the next, so it says nothing of two refreshes at once, but for the test `both_exchange` of
-- Tests/Accounts, in which both return tokens.
--
-- A commit that fails has not published its tables; a lost answer to a commit that has is not
-- modelled. Log lines, contexts and timeouts (beyond the faults above) are left out, and so are the
-- branches for a wallet service without idempotency service, an auth service without refresh token
-- repository and a limiter without Redis, which main.go never builds. Not modelled: the ticker of
-- the publisher, trusted proxies, signals, opening connections and the port, which are timing and
-- pure I/O, and what gin does before and after a handler (JSON, headers, routing, recovery from
-- panics).
pub mod Prelude
pub mod Model
pub mod Runtime
pub mod Repository
pub mod Service
pub mod Handler
pub mod Server
mod Tests

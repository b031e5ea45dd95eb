-- ===== src/Lib.antt =====
-- A model of Nexss Cost, a Go library for budget reservation and cost recording in integer
-- micro-units.
--
-- The program. A ledger admits a reservation of an estimated amount if a budget has room for it; a
-- commit replaces the reservation by the actual cost, a release drops it, and a record call keeps
-- an audit event (the interfaces of reserver.go). The in-process ledger (ledger.go, reservation.go)
-- does this with atomic counters, the PostgreSQL adapter with three tables and transactions, the
-- Redis adapter with Lua scripts. The kernel adapter reserves before an action and settles when it
-- ends.
--
-- The files. `Prelude` and its children hold what all share: tests on numbers, integers, lists.
-- `Int64` is Go's int64 with its wrap-around, `Text` its byte strings. `Errors` models errors.go:
-- error values, errors.Is, and the context argument of every operation, as what its Err() returns.
-- `Currency` models currency.go, without the JSON form (encoding/json) and without Micro (float64).
-- `Event` is entry.go. `Ledger` models ledger.go, a function for each method (reserve,
-- record_event, entries_snapshot), from the ledger before the call to the result and the ledger
-- after it; `Reservation` models reservation.go. `World` is a ledger with the reservations that it
-- has handed out, and sequences of the calls of reserver.go on them. `Goroutines` has the atomic
-- operations of ledger.go and reservation.go as steps that goroutines take in any order. `Sql` is a
-- transaction as the adapters use database/sql, with faults of the driver as arguments. `Postgres`
-- models adapters/postgres/ledger.go over the rows of `Postgres/Tables`, with a function for each
-- method and for each SQL statement; `Redis` models adapters/redis/ledger.go over the keys of
-- `Redis/Keys`, with a function for each script, for each method and for each Redis command.
-- `Guard` models adapters/kernel/guard.go, the hooks of an action, over the calls of `World`.
-- `Wallet` models nexssflow/wallet.go over the rows of `Wallet/Tables`, in `Wallet/Reserve`,
-- `Wallet/Settle` and `Wallet/Record`; `Wallet/History` runs sequences of its calls. `Quota` models
-- nexssflow/storage_backend.go: `Quota/Record` has the record of a tenant, its decoding and a
-- function for each update of it, `Quota/Base` the store as a parameter and the methods;
-- `Text/Decimal` and `Text/Spaces` are the parts of strconv and strings that it uses. `Flow` models
-- the rest of nexssflow: `Flow/Value` what reflection shows of the input of an action
-- (estimateField), `Flow/Estimate` estimate.go, `Flow/Reserver` the interfaces of reserver.go as a
-- record, `Flow/Dynamic` the hooks of dynamic_guard.go, `Flow/Middleware` the quota middleware of
-- postgres.go and storage_backend.go, from Reserve on, over any such ledger,
-- `Flow/Middleware/Storage` the middleware on runtime budgets, `Flow/Accounts` the ledger that an
-- input names (ledgerForInput), and `Flow/Middleware/Postgres` the middleware on it. `Contract` is
-- the run of testkit/contract.go. `Flow/Report` has report.go and the other actions of library.go,
-- `Flow/Modifier` its cost_estimate modifier, `Flow/Settings` parsePostgresSettings, and
-- `Flow/Bundle` the options and the backends. The other children of these modules hold the proofs.
--
-- Bounds. Amounts are integers, truncated to int64 where the code adds or subtracts. The
-- CompareAndSwap loop of Reserve runs over a list of interferences, one for each round in which
-- another goroutine may move the counter, and ends with a round in which nobody does; so it needs
-- no fuel. In `Goroutines` the loop is a cycle of steps. The audit ring has 1024 slots, and its
-- head is a uint64. A BIGINT column that would leave its range is an error of the statement. A
-- transaction is one step, since it locks the rows of its scope before it reads them;
-- CURRENT_TIMESTAMP is an argument, in microseconds. A Lua script is one step; its numbers are
-- doubles, which a parameter stands for, exact up to 2^53. The clock of Redis is an argument, in
-- milliseconds, and a key with a time to live is gone after that time.
--
-- Parameters. The flow bundle takes compiler.Decode, os.ExpandEnv, time.ParseDuration, the opening of
-- a database or a storage, and the SHA-256 digest of a tenant as arguments, and the theorems hold for
-- all of them.
--
-- Not modelled: the JSON form of a currency and Micro; the calls that the kernel makes between the
-- hooks; the shutdown of the flow bundle; the automatic retries of the Redis client, which can run a
-- script twice; and the example schemas.
pub mod Prelude
pub mod Int64
pub mod Text
pub mod Errors
pub mod Currency
pub mod Event
pub mod Ledger
pub mod Reservation
pub mod World
pub mod Goroutines
pub mod Sql
pub mod Postgres
pub mod Redis
pub mod Guard
pub mod Wallet
pub mod Quota
pub mod Flow
pub mod Contract

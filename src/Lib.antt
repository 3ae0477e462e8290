-- ===== src/Lib.antt =====
-- A double-entry ledger service (cmd/, internal/, migrations/): transactions are posted to and
-- reversed in PostgreSQL through internal/ledger and internal/ledger/pgledger, each in one database
-- transaction that also writes the outbox events (internal/outbox), the record of a caller such as a
-- payout saga (internal/saga) and the stored response of an idempotent request
-- (internal/idempotency); internal/projector builds a read model from the
-- events, and internal/reconciliation compares the ledger with the payment provider's statement.
--
-- The tables are one state, `Db` (Postgres.antt), and a database transaction is a function from it to
-- a result and the next state: `run_tx` is Repository.runTx, and it rolls back on any error and on the
-- deferred trigger of migrations/000005_balance_invariant.up.sql. The statements of
-- internal/ledger/pgledger/repository.go are in Ledger/Repository.antt with the CHECK and UNIQUE
-- constraints that mapError turns into errors. Transactions run one after the other: row locks,
-- advisory locks and retries are not modelled, nor is a COMMIT that fails for another reason than the
-- trigger, after which the source does not know whether the transaction took effect: an error of a
-- database transaction means here that it has rolled back.
--
--   Base, Errors          numbers, lists, integers, int64 arithmetic; the sentinel errors and results
--   Ledger.Money          internal/ledger/money.go
--   Ledger.Types          internal/ledger/types.go
--   Ledger.Request        the requests of internal/ledger/service.go and their validation
--   Ledger.Routing        sortedAccountIDs and routeToShards
--   Ledger.Reads          GetBalance, GetBalanceAsOf and GetTransaction of Ledger.Repository's file
--   Ledger.Statements     GetStatement of that file: a keyset page with a running balance
--   Ledger.Repository     the txn methods of internal/ledger/pgledger/repository.go
--   Ledger.Aggregate, Ledger.Posting, Ledger.Events, Ledger.Service
--                         internal/ledger/service.go: postTransaction, doReverse, CreateAccount
--   Ledger.Journal, Ledger.Consistency
--                         the specification: what the journal says an account holds, and when the
--                         tables agree with it
--   Idempotency           internal/idempotency/record.go, store.go (Manager) and pgidem/store.go
--   Outbox                internal/outbox/writer.go
--   Projector             internal/projector/apply.go
--   Reconciliation        internal/reconciliation/types.go, classify.go and the loop of engine.go
--   Gateway               internal/gateway/gateway.go and client.go, over what net/http answers
--   Saga                  internal/saga/status.go, instance.go, pgsaga/tx.go (Pgsaga) and
--                         pgsaga/store.go (Pgsaga, Store)
--   Saga.Payout           internal/saga/payout/payout.go; Run, Outcomes and Steps are run.go and
--                         steps.go, with drive_one for driveOne
--   Saga.Payout.Machine   the state machine as edges, and the measure that each transition lowers
--   Saga.Payout.Keeps, Books, Moves, Runs, Progress, Driving, Compensating, Termination
--                         the proofs on drives
--   Ledger.Tests, Idempotency.Tests, Projector.Tests,
--   Reconciliation.Tests, Saga.Tests, Saga.Payout.Tests, Saga.Payout.Examples
--                         examples
--
-- A drive of a payout is a sequence of database transactions (`Run`, in Saga/Payout/Run.antt), so that
-- an error keeps what was committed before it, and it starts from an instance that may be out of date.
-- Time stands still and no other process works between the transactions of one drive; drives of any
-- orchestrators follow one another in any order. `drives` repeats drives of one saga over a list of
-- environments: a list as long as the measure of its state is enough.
--
-- Amounts are int64 in the source: integers here, with the wrap-around of addInt64, subInt64 and a
-- negation written out. Ids are numbers. What uuid.NewV7, rand.IntN and a caller's Recorder or
-- ResponseRenderer answer is an argument; a Recorder is assumed to leave accounts, journal and
-- transactions alone where a theorem says so. No definition uses fuel: every loop is over a list.
--
-- Not modelled: the timer loops that claim and drive sagas, HTTP, authentication, Kafka,
-- configuration, metrics, the retrier, read replicas, searches (but for the clamping of a limit),
-- and the binaries under cmd/.
pub mod Base
pub mod Errors
pub mod Ledger
pub mod Saga
pub mod Idempotency
pub mod Outbox
pub mod Postgres
pub mod Gateway
pub mod Projector
pub mod Reconciliation

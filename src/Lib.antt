-- ===== src/Lib.antt =====
-- FinFlow: payments, a double-entry ledger, and the events between them.
--
-- The payment service (services/payment-service) creates payments and decides them, and writes an event
-- to its outbox in the same transaction. A publisher sends the outbox to Kafka. The ledger service
-- (services/ledger-service) consumes the events, books a debit and a credit for each created payment
-- once per event, retries what fails, and writes what keeps failing to a dead-letter topic, from which
-- an operator can replay it. A gateway (services/gateway-service) stands before both.
--
-- Files and code:
--   Base, Base/...      tests on numbers and texts, lists, int64 (no code of the repository)
--   Go/...              Go's errors, the parts of strings and encoding/json that are used, and in
--                       Go/Environment what is read of other code: Unicode's tables, net/url, uuid, PostgreSQL's
--                       reading of a UUID, SHA-256, the text of a time, the reading of a duration
--   Postgres            a statement and a transaction of pgx: BeginTx, defer Rollback, Commit
--   Ledger/Model        services/ledger-service/internal/model/ledger.go
--   Ledger/Balance      ValidateBalanced of internal/service/ledger_service.go
--   Ledger/Tables       the tables and statements of internal/repository/postgres_ledger_repository.go
--   Ledger/Repository   LedgerRepository, EnsureAccount, CreateTransaction, CreateTransactionOnce, ...
--   Ledger/Service      RecordPaymentMovement, RecordPaymentMovementOnce, ListBalances, ...
--   Consumer/...        internal/consumer: HandleMessage (Handle), handleWithRetry (Retry), the dead
--                       letters (DeadLetter), Run (Run)
--   Replay/...          internal/repository/replay_repository.go (Audit), internal/replay/replayer.go,
--                       cmd/replay-dead-letter/main.go (Command)
--   Payments/Model, Event, Tables, Repository, Service
--                       services/payment-service/internal: model, event, repository, service
--   Payments/Outbox     internal/repository/outbox_repository.go
--   Payments/Publisher  internal/publisher/outbox_publisher.go
--   Retention/...       internal/retention/retention.go; cmd/retention/main.go (Settings, Command)
--   Payments/Consistency, Lifecycle, History, Answer, Contract
--                       what the service keeps true of its tables, and what the consumer reads
--   Http/...            requests, responses and handlers of net/http; internal/security of the three
--                       services (Security); net/http/httputil's reverse proxy (ReverseProxy)
--   Payments/Handler, Ledger/Handler
--                       internal/handler of the two services, and the middleware of cmd/api/main.go
--   Gateway/RateLimit, Proxy, Server
--                       services/gateway-service/internal/ratelimit and internal/proxy, and the routes of
--                       cmd/api/main.go; Gateway/Sent and Upstream join them with the services
--   Migrations/Files, Run
--                       services/payment-service/internal/migration/migration.go
--   Config/...          internal/config of the three services: the settings, Validate and Load; and
--                       internal/kafkaclient/security.go (KafkaClient)
--   Tests/...           runs on concrete inputs
--
-- State. `World` holds the tables, the counter of uuid.NewString, the time now() and a schedule: the
-- outcome of each further call to the server, which may succeed, fail before the server acts, or be
-- carried out without an acknowledgement. A theorem about every world is about every such run.
-- Transactions are atomic and run one after the other. The consumer's state holds further schedules
-- for Kafka and for the waits, the dead letters and the committed messages; `run` reads a finite script of
-- fetches and is total. `retry_loop` is structural on the attempts that are left.
--
-- Numbers. Amounts are integers; the totals of ValidateBalanced are bit patterns modulo 2 ^ 64, and the
-- doubling of the wait wraps at 2 ^ 64. Durations and times are natural numbers of nanoseconds.
-- `format_int` has fuel 19, the digits of an int64; `run_rule` takes the rounds
-- of its loop, of which one more than the eligible rows are enough.
--
-- Not modelled: tracing, metrics and logs; the blank padding of CHAR(3), the refusal of NUL in TEXT,
-- collation other than by bytes; bytes that are not UTF-8; keys of JSON objects that match without
-- regard to case; the files .env, which Load reads before the environment; chi's routing, which a request's
-- parameters and the patterns stand for; what the reverse proxy restores for a change of protocol; a migration's
-- script is a parameter's work and leaves the table of migrations alone; the servers, signals and clients that
-- the other commands put together.

pub mod Base
pub mod Go
pub mod Postgres
pub mod Http
pub mod Ledger
pub mod Consumer
pub mod Replay
pub mod Payments
pub mod Gateway
pub mod Config
pub mod Retention
pub mod Migrations
pub mod Tests

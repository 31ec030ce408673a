-- ===== src/Lib.antt =====
-- The repayment service of an asset-financing programme (Go). A bank notifies it of every transfer;
-- the service validates the notification, finds the customer's open deployment, moves the money in one
-- atomic statement that also appends to a ledger, and answers with the customer's position. A
-- reference of the bank is the idempotency key.
--
-- The parts, the files that model them, and the code they follow:
--   Errors         pkg/errors: domain errors, their codes, `errors.As` and `errors.Is` along a chain
--   Money          pkg/money: currencies, the parsing of amounts, proration
--   Deployment     internal/domain/deployment: the schedule arithmetic (Entity, Position), and `Create`,
--                  `Resolve` and `GetPosition` (Service)
--   Payment        internal/domain/payment: notifications (Validate), `Accept` and `Process` (Service)
--   Database       internal/infrastructure/database: both tables with their constraints (Tables, from
--                  the migrations), the SQL statements as functions on the tables (Statements), the row
--                  models (Rows), the invariant of the books (Consistency), the life of the tables
--                  as a sequence of statements (Ledger), the ledger as a bag of credits (Commuting) and
--                  whose deployments it credits (Owners)
--   World          the state that the service works on, one round trip to the database under a fault of
--                  the network (State), internal/infrastructure/cache (Cache) and the repositories
--                  (Repository)
--   Queue          internal/infrastructure/queue: a message and a round of the workers and the reclaimer
--                  (Worker), the pool and the endless loops (Loops)
--   Config         internal/config: the texts of numbers and durations (Numbers), the reader with its
--                  problems (Reader), the sections of `New` (Sections), the env file, `Validate` and
--                  `New` as a whole (Load)
--   Application    internal/application: transport shapes and use cases
--   Http           pkg/middleware around the body (Middleware) and outside it (Outer: request ids,
--                  recovery, the counter of requests), pkg/response, the handlers (Handlers, Health) and
--                  pkg/router: the routes (Routes) and the mux (Setup)
--   System         the start of the process (Startup: the hooks of database, cache, queue and workers, in
--                  the order of bootstrap) and the service in operation, as a step relation (Steps)
--   Tests          runs on concrete inputs, with every parameter as an executable function
--
-- How they interact: a route of Http runs its middleware and a handler, the handler a use case, the
-- use case `accept` or `create`. `accept` looks into the result cache, then puts the notification on
-- the stream or, without a queue or when that fails, calls `process`; a worker calls `process` for a
-- message of the stream. `process` resolves the customer through the routing cache and ends in
-- `record_only` or `apply_routed`, which each send statements of Database. The configuration gives the
-- settings of the routes, of the domain and of the workers. A step of System is one call of an entry
-- point: a notification, a registration, a position, a round of a worker or of the reclaimer, a look
-- that changes nothing, or a restart; requests to the mux and the loops of the workers are sequences
-- of such steps. State is passed explicitly: an operation takes a `World` and returns its result with
-- the next `World`. Errors are values of `Result`.
--
-- Faults and concurrency. Each call of the service to Postgres or Redis has a number, and an
-- `Environment` says of each number whether the call works, never arrives, or is carried out while its
-- reply is lost, at what time it happens, and how many of the newest ledger entries the snapshot of an
-- apply statement misses because other connections committed them in the meantime. A statement itself
-- is atomic and acts on the latest version of the row it updates; a sequence of statements of any
-- number of connections is `Reach` of Database/Ledger.
--
-- Parameters, for code that is not in the repository: `Decimal` (shopspring/decimal, with its exact
-- addition, subtraction and comparison as laws over values counted in the last decimal place in use),
-- `Unicode` (the case tables beyond ASCII), `Floats` (float64 and math), `Calendar` (time's parsing
-- and formatting), `Codec` and `Json` (encoding/json), `Hmac` (HMAC-SHA256), `Variables` and `Host`
-- (the process's environment and its files), `Fractions` (the float64 of a duration's fraction),
-- `Zones` (time.LoadLocation), `Migrations` (golang-migrate), `Environment` (the network, the clock,
-- the identities that Postgres and uuid generate, what Redis trims and what a claim returns). The
-- commands of Redis and the clauses of SQL act as documented.
--
-- Bounds. Numbers are natural numbers or integers without wrap-around: `int64` counters and `int`
-- terms stay below 2^63 by the constraints of the tables; amounts are exact, with the range of
-- NUMERIC(24, 6) and the lengths of VARCHAR as constraints. Durations saturate at 2^63 - 1 nanoseconds
-- as in Go. Dates before Go's zero time are cut off. Fuel bounds the printing of a number, by the
-- number, and the reading of a duration, by the length of its text, of which every term takes a
-- character. Lists are finite, a round of a worker or of the reclaimer ends with its batch, and a loop
-- runs over the list of what it finds at its context and its ticker, as long as one likes.
--
-- Not modelled: the dependency injection of fx and the listener of the server, the pool's settings and
-- what the migrations do, the metrics but the counter of HTTP requests, the page that prints them, and
-- the logging, since nothing in the program reads them; the deadline of a request's context (a
-- deadline is a fault of the call that it cuts off), the length of waits and ticks, the expiry of
-- cache entries (an expired entry is a miss, which a fault gives too), and the partitions and plain
-- indexes of the tables.
pub mod Prelude
pub mod Errors
pub mod Money
pub mod Deployment
pub mod Config
pub mod Payment
pub mod Database
pub mod World
pub mod Queue
pub mod Application
pub mod Http
pub mod System
mod Tests

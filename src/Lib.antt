-- ===== src/Lib.antt =====
-- A model of a transaction chain between services: a sender numbers the requests that it sends to each
-- receiver, runs the stages of a transaction one after another with retries, and a receiver serves
-- the requests of each partition in the order of their timestamps. Three services, each with a table in
-- a database of its own, are built on it: users, events and the logs of events.
--
-- The parts, and the files that model them:
--   Prelude             Go maps, slices and loops, the outcome of running code (`Run`), and the tables
--                       with a row for each partition and a cell for each service
--   Cc/Partition        pkg/cc/partition.go: GenPartitions, Partition, Lock, Unlock
--   Cc/Clock            pkg/cc/clock.go: NewTxClockManager, InitService, Get, Set, Inc
--   Cc/Filter           pkg/cc/filter.go: Init, AddReqFilter and its five siblings (through `change`),
--                       DropReq, DropResp
--   Cc/Origin           pkg/cc/origin.go: Acquire and Release are made of the sections `enqueue`,
--                       `advance` and `next`, each under the mutex of its partition; Origin/System
--                       interleaves the callers, and Origin/Cells has the abstract state
--   Cc/Context          pkg/cc/context.go: the records that travel with a transaction, and in
--                       Context/Encoding their headers, in the base64 of Context/Base64
--   Cc/Checkpoint       pkg/cc/checkpoint.go: TxDedupBeforeHook, TxDedupAfterHook, and in
--                       Checkpoint/Executors the statements on the table TxExecutor
--   Cc/Manager          pkg/cc/manager.go: NewTxManager
--   Cc/Recovery         pkg/cc/recovery.go: recoverSendClocks, recoverRecvClocks (both are
--                       `recover_clocks`), recoverExecutors, Recover, recoveryRequest
--   Cc/Instrumenter     pkg/cc/instrumenter.go: TxInstrumenter, TraceRecorder
--   Format              pkg/format/tx.go: the trace context, and the keys of pkg/cc/context.go
--   Database/LifeCycle  pkg/database/tx.go: the hooks of a transaction, and Start
--   Cc/Executor         pkg/cc/executor.go: TxExecutor, TxExecutorStage (Executor/Stages), the sleep
--                       of a retry (Executor/Backoff) and TxExecutorManager (Executor/Manager, where
--                       `handle` is the goroutine of one executor that was received)
--   Api/Cc, Api/Advance pkg/api/v1/cc.go: the handlers that steer the managers
--   Middleware/Sender   pkg/middleware/tx.go: createTxExecutor
--   Middleware/Participant
--                       pkg/middleware/tx.go: TxParticipant
--   Middleware/Coordinator
--                       pkg/middleware/tx.go: TxCoordinator
--   Database/Sql        pkg/database/user.go, event.go, event_log.go: the statements on a table; Sql/Ids,
--                       Sql/Lookups and Sql/Keeps say what they do to columns, rows and valid tables,
--                       Sql/Committed, Sql/Column and Sql/Pairs what Start leaves of them
--   Database/User       pkg/database/user.go: the statements of UserStore, each writing one run by Start
--   Database/Event      pkg/database/event.go: EventStore, likewise
--   Database/EventLog   pkg/database/event_log.go: EventLogStore, likewise
--   Database/Stores     pkg/database/db.go, and the interfaces of the stores, which the tables implement
--   Router              pkg/router/router.go and pkg/middleware/types.go: routes, routers, Chain; the
--                       listing Routes in Router/Flat, the methods in Router/Methods; Router/GoPaths has
--                       what Go's package path does
--   Api/Reply           pkg/api/v1/error.go, pkg/format/response.go: the answers of a handler
--   Api/User, Api/Event, Api/EventLog
--                       pkg/api/v1/user.go, event.go, event_log.go: the handlers, over the stores
--   Api/Request         pkg/api/v1/request.go, path.go: Request, and in Request/Clients its wrappers
--   Api/Routes          pkg/api/v1/routes.go: the tables of routes, and in Routes/Endpoints the method, the
--                       path and the handler of each type of requests
--   Api/Call, Api/Tx    pkg/api/v1/tx.go: the handlers that call the three services in a row; in
--                       Tx/Services the services behind a network, in Tx/World their tables
--   Tests               the theorems at concrete states
--
-- Conventions. A uint64 is a natural number, with `% 2 ^ 64` where the code adds. A mutex is a
-- Boolean; `Run` has `panic` (an index or a nil pointer) and `blocked` (a wait that nobody ends).
-- The state of the world outside (database, other services) is a type `W` that the functions which
-- reach it take and return; `V` is the type `any` of inputs and results, and `E` that of their errors.
--
-- An id is an integer (`ℤ`), and `minus_one` the id that stands for none; a time is the natural number
-- of its nanoseconds, 0 being the zero time. A table is a map from the primary key to the row, and the
-- rows of a query and the loops over a map come in the order of its entries; a nil slice is not told
-- from an empty one. The new id of a row is drawn by the database, which is asked for one that the
-- table does not have.
--
-- Fuel. The loops of the manager's goroutine run on `length stages + 2`: each round moves the current
-- stage on or turns the executor to forced completion, which ends the loop in the next round. The
-- attempts of a recovery request are counted down from the ten of the source.
--
-- Parameters. The priority queue and the hash sets of github.com/emirpasic/gods are interfaces with
-- the documented laws, each with an instance (`list_queue`, `test_set`); hash/maphash is `Hashing`;
-- the statements that createTxExecutor sends are `SenderDb`, each of which may fail; pgx is `Pool`,
-- `TxResults` and `TxExecutors`, and encoding/json is `Json`, `ContextJson`, `ContextCodec` and
-- `Encodings`; a value of type `any` comes back from it as the value that JSON has for it. A column of
-- type JSONB gives back bytes of its own (`jsonb`). Whether a statement fails is decided by `Table` and
-- its faults; package path is `Paths`, with `go_paths` its functions on Unix, fmt is `Fmt`, the HTTP
-- client is `Client` and `Codec`, and `Network` decides which messages get lost. A handler or a recorder that runs inside a middleware is
-- a function of the mutexes or clocks as they stand while it runs.
--
-- Not modelled. The configuration and start of the HTTP servers (pkg/router/config.go, Handler and Run
-- of pkg/router/router.go, and service/), logging, the decoding of request bodies and queries, the
-- JSON encodings, the SQL texts beyond what they do to the tables, and the Docker containers, which
-- all are I/O or glue around the parts above.
pub mod Prelude
pub mod Format
pub mod Database
pub mod Cc
pub mod Api
pub mod Middleware
pub mod Router
pub mod Tests

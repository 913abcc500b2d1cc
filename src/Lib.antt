-- ===== src/Lib.antt =====
-- A structured logging library for Go: what its loggers, its asynchronous pipeline, its strategies,
-- its security layer and its sinks do to a log line, and what its operations record, with the
-- theorems about it.
--
-- A line becomes an entry with a level, a message, fields and identifiers. The synchronous logger
-- writes it to its sinks at once. The asynchronous logger and the logger with strategies hand it to
-- a pipeline of goroutines and write it themselves where the pipeline refuses it; the latter first
-- has it filtered, sampled and masked by a manager. The security layer masks fields, decides who may
-- see them and keeps an audit trail. Sinks before an unreliable end keep what it refuses, in a bound,
-- and alerts are tried a few times. The package boeng puts operations on top: each opens a span, logs
-- its start and its end, and sends samples to metrics whose names and labels are bounded.
--
-- Files and the code they are about:
--   Prelude: Boolean tests, lists, maps, keys and bytes that the other modules share.
--   Domain (internal/core/domain/models.go): Level for `Level` and its parser, Value for the
--     dynamic types of `interface{}`, Entry for `LogEntry` and its methods, EntryPool for
--     `LogEntryPool`, whose channel is a list with a capacity, FieldMaps for the pool of maps, which
--     are shared by their addresses in a store.
--   Util/Context (internal/util/context.go): the identifiers in a context. Util/Json
--     (internal/util/json.go): the members of the JSON object of an entry; the library's functions
--     that it calls are parameters.
--   Base/Promote, Base/Unified (internal/core/service/base/unified.go): `Promote` and the
--     synchronous logger. Loggers are values, and what they share (sinks, counters) is a state that
--     is passed on.
--   Base/Pipeline, Base/AsyncLog (internal/core/service/base/async.go): the state of
--     `AsyncPipeline`, what each goroutine does between two points where another can come in, and in
--     Base/Pipeline/Schedule the relation of these steps. `WriteAsync` is a function that takes what
--     others do between its channel operations as parameters.
--   Strategy (internal/core/service/strategy and internal/core/port/strategy.go): Strategies,
--     Manager and Logger, one for each file. A strategy is a record of functions; what a sampler
--     draws is an argument; floats are an interface of an order with two numbers.
--   Security (internal/core/service/security/security.go): Masking for `PIIMasker`, Audit for
--     `AuditTrail`, Access for `AccessControlManager`, Secured for `SecurityLogBrt`. The digest and the
--     regular expressions are parameters.
--   Otel (internal/core/service/otel_logger.go): the logger with telemetry and the hook that exports
--     the counters of the pipeline. What the provider and its meter are told is recorded.
--   Otel/Endpoint, Otel/Globals, Otel/Provider (internal/adapter/outbound/otel/provider.go) and
--     Otel/Provider/Telemetry (internal/adapter/outbound/telemetry/otel.go and
--     internal/adapter/outbound/otel/otel.go): how providers are made and what they do to the globals
--     of OpenTelemetry. Providers of the SDK are numbers, and what the SDK answers is a parameter.
--   Sinks/Buffered (internal/adapter/outbound/sink/buffered/buffered.go) and Sinks/Loki
--     (internal/adapter/outbound/sink/network/loki.go): the failures of the inner sink and the
--     answers of the endpoint are parameters. The buffered sink holds its lock for all of an
--     operation and is a function; the Loki sink releases it while it pushes, and has several
--     flushes in flight.
--   Sinks/Queued (internal/adapter/outbound/sink/async/async.go): the asynchronous sink, whose inner
--     sink is not nil.
--   Sinks/Alerts (internal/adapter/outbound/sink/alerts): the alert sinks and their delivery. The
--     answers and the times of posts and sleeps are parameters.
--   Sinks/Files (internal/adapter/outbound/sink/file/optimal.go): the rotating file sink, whose files
--     are lists of entries; whether opening and writing work is an argument.
--   Sinks/Lumberjack (internal/adapter/outbound/sink/file/lumberjack.go), Sinks/ClickHouse
--     (internal/adapter/outbound/sink/network/clickhouse.go) and Sinks/Plain (the sinks for the
--     standard output, the switch and zerolog): what is asked of the library or the server.
--   Boeng (boeng): Names and Metrics for metrics.go, Fields for fields.go, Op for the handle in
--     enter.go, Run for run.go, level.go and `Step`, Start for boeng.go. The state of the package and
--     of the operations is passed on; a span and the clock are arguments; what other goroutines do
--     between the read lock and the write lock of a cache of metrics is a parameter. Start/Providers
--     and Start/Handler are the parts of boeng.go that touch the globals of OpenTelemetry.
--   Boeng/Http, Gin, Rabbit, Redis and Mongo (boeng/http/http.go and so on): the packages that
--     instrument other libraries. What these libraries do in an operation is an argument.
--   Tracing (internal/logtrc/api.go, internal/adapter/outbound/sink/options/options.go): Options for
--     the configuration, Loggers for `New`, Extract for the fields of a value.
--   Examples: concrete inputs for the theorems, and tests.
--
-- Conventions and limits. No definition needs fuel: loops are recursions on their lists, and the
-- retries of a push or of an alert on how many are left. Counters (`uint64`, `int64`) are taken not
-- to wrap. Strings are lists of bytes, those of the masks of boeng of code points; the change to
-- lower case is the one of ASCII. Levels are not negative.
-- A map is an association list, and where the order of ranging over a map decides, the order of the
-- list does. A worker writes one entry to all sinks in one step. A channel of capacity 0 (a batch
-- size of 0) is a queue that never has room, and not a rendezvous. Pointers that are nil and
-- unexported fields of structs are left out, and so is formatting. A function that an operation runs
-- returns, panics or ends its goroutine. A duration for a histogram in seconds is in nanoseconds.
--
-- Not modelled: what only passes calls on (aliases, the factory of sinks, the shim around a provider,
-- the options of a response), spans and headers as OpenTelemetry sees them, errors with codes, and
-- the examples and benchmarks.
pub mod Prelude
pub mod Domain
pub mod Util
pub mod Base
pub mod Strategy
pub mod Security
pub mod Sinks
pub mod Otel
pub mod Boeng
pub mod Tracing
pub mod Examples

-- ===== src/Lib.antt =====
-- The scraper collects market data of exchanges and stores it. This library models its core.
--
-- The parts and how they interact. The backfill command asks an exchange for the K-lines of a range,
-- year by year and page by page, stores them, and reports which runs of open times it has stored; whoever
-- asked for the range reads these segments. The control plane's runtime reconciles the
-- collectors of live streams with the streams that a remote service lists, and reports their states.
-- Both write through the storage, which chooses a database by exchange and year and a table by market,
-- symbol and interval.
--
-- Base: results, signed integers, Boolean tests and list lemmas. Text: Go strings as lists of byte
-- values, ASCII only. Time: instants as nanoseconds since the year 1, the calendar, and int64
-- milliseconds with 2^63 added, so that they wrap around as in Go. Models: internal/models/models.go,
-- floating-point numbers by their bits.
--
-- Backfill: internal/backfill. Interval and Request: intervals (`interval_duration`, wrapped to int64),
-- `normalize_kline_request`, `validate_kline_request`. Window: `split_by_year`, where the years from
-- start to end are enough fuel, since a round of the loop ends a year. Segment:
-- `build_coverage_segments` and `append_coverage_segments`. Row: a JSON row as a K-line, with the
-- conversions of floats as parameters. Fetch: `fetch_klines`; the record `Env` gives what the exchange,
-- the store and the context answer to the call of each number, and is not restricted. Run:
-- `backfill_window`, whose state is the number of calls and the batches stored; the milliseconds of the
-- window are enough fuel, since a round moves on by one at least. Years: `RunKlineRequest`, with
-- what the server answers as a parameter. Verify: `VerifyKlineCoverage`; the record `Server` gives the
-- server's databases and the counts of its tables.
--
-- Control: internal/controlplane/runtime.go. Stream and Handle: the records `Stream`, `managedStream`
-- and `Runtime`; collectors are known by the number of the factory call that made them, and the calls
-- of the runtime to the client and the collectors are a trace. Reconcile: `reconcileStream`. Runtime:
-- the other methods, and `Event` and `step`, since the mutex is free between the streams of a
-- reconciliation and events interleave. The order of a Go map is the list's. Trace entries are in the
-- order in which a method makes its calls; calls of two methods that overlap are not interleaved.
--
-- History and Tracking: internal/controlplane/history_runtime.go. `run_request` gives the reports of
-- `runRequest`, with the check of internal/backfill on the server before and after the backfill;
-- `HistoricalRuntime` tracks jobs, known by the number of the jobs before them, and its events are the
-- steps at which the mutex is held. Lease: internal/controlplane/writer_lease.go, `Acquire`.
--
-- Collector: internal/scraper/spotkline/kline.go and internal/scraper/futureskline/kline.go. Rows:
-- rows and messages as K-lines. Sink: the record `Collector`, which is the state of both, with the
-- calls of the store, the publisher and the observer as a trace; the record `World` gives what the
-- exchange, the clock, the store and the publisher answer to the call of each number, and is not
-- restricted. Fetch: the three attempts of a request. Spot: `catchUpForward`, where the
-- milliseconds to the present are enough fuel, since a round moves on by one at least; the messages
-- of a connection; the rounds of `forward`. Futures: the ticks of `forward`. Reverse: `reverse` of
-- both. OpenInterest: internal/exchange/binance/scraper/openinterest.go, with polls, messages and
-- backfills in any order. Base/State: a method's state after an error, and after a success.
--
-- Storage: internal/storage/timescale.go and write_router.go. Names: the names of tables and
-- databases, and those that internal/backfill/klines.go expects. Timescale: the inserts of a
-- `TimescaleDB` without a router, with the statements that the server has executed as the state; Timescale/Rows gives
-- the rows that they leave, where an insert whose conflict key is in the table adds nothing.
-- Reads: the tables that a query of funding rates reads. Migrations: `runMigrations`, whose
-- transaction is rolled back after an error. Ensure: cmd/ensure-scraper-db/main.go, the target
-- databases, and migrations with a transaction for each file.
-- Domain: lease domains and route keys, with the year of now as a parameter. Router:
-- `MarketDataWriteRouter`, one insert after the other; the record `Services` gives what the lease
-- manager, the factory and the stores answer, and is not restricted. The order of the groups, a Go map,
-- is that of their first rows.
--
-- The module Plan is for internal/scraper/common/plan.go: `build_collection_plan`, with the parse
-- of times and the month before now as parameters. Plan/Plugins: planner.go beside it, where a plugin
-- is known by its fields, and the symbols and the range of its scraper.
--
-- Not modelled: the timers of `Runtime.Run` and `HistoricalRuntime.Run`, the gRPC client,
-- websockets, the text of SQL statements, the order-book and funding collectors, the publisher,
-- configuration, logging and the other commands.
pub mod Base
pub mod Text
pub mod Time
pub mod Models
pub mod Backfill
pub mod Control
pub mod Storage
pub mod Collector
pub mod Plan
pub mod Tests

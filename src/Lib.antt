-- ===== src/Lib.antt =====
-- Skialith: a durable event store for agents. An agent's event is written to a NATS JetStream log
-- before anything else; a background task writes it to a table in batches; an ingester turns the log
-- into traces; and an agent resumes from its newest trace after a crash.
--
-- The parts, and how they interact:
--   Limits      src/limits.rs. `Limits.Limiter` is `RateLimiter` as one task runs it, with the wall
--               clock as an argument; `Limits.Interleaved` is the same code run by many tasks, one
--               atomic access at a time, and `Limits.Overrun` counts what such a run hands out.
--   License     src/license.rs. `load`, `parse_and_verify` and what a licence grants.
--   Lock        src/instance_lock.rs. `acquire`, `beats`, the turns of its heartbeat, and `drop`,
--               which aborts it; in `Lock.Instances` any number of instances share a bucket.
--   Store       src/durable_event_store.rs. `Store.SaveEvent.save_event` waits for the limiter,
--               publishes, awaits the acknowledgement and enqueues, and
--               `Store.SaveEvent.Interleaved` is the same code run by many tasks, one await at a
--               time; `Store.Writer` is `run_tidb_batch_writer`, which receives what was enqueued,
--               and calls `Store.Retry` (`flush_batch_with_retry`) and `Store.Flush`
--               (`flush_batch`); `Store.Config` builds a store, and `Store.Connect.connect` asks
--               the licence and the lock first. In `Store.Pipeline` the writer receives what
--               interleaved calls have enqueued; `Store.Streams` has `ensure_stream`.
--   Trace       src/agent_trace.rs. The rows of `agent_traces` and their insertion. `Trace.Abstract`
--               is the abstract view of the table: a map from an agent and a step to a row.
--   Ingest      src/trace_ingest.rs. `trace_of` makes a trace of a message; `ingest_loop` inserts and
--               acknowledges; `Ingest.Stream` is the whole function, with its consumer, and
--               `Ingest.Refines` takes the loop to the abstract view.
--   Manager     src/agent_manager.rs. `checkpoint_state` publishes a checkpoint.
--   Resurrection  src/resurrection.rs. `resume_agent` reads the newest trace.
--   Server      src/bin/server.rs. The handlers, which call the store, the manager and
--               `resume_agent`; `Server.Requests` dispatches requests to them one after
--               another; in `Server.Concurrent` they overlap, each a task that stops at its
--               awaits and in the limiter, and can be dropped there, with a message still on
--               its way to the log; `Server.Startup.main`
--               connects a store, reads the port and serves. `Server.Recovery` follows saved events
--               from the log through the ingester to the agent that resumes.
--   Main        src/main.rs. The example program, from its variables to one saved event.
--   Benchmark   src/bin/benchmark.rs. The percentiles, the two latency scenarios and the batch
--               persistence scenario, over the library's functions as arguments;
--               `Benchmark.Tasks` is the tasks of the throughput scenarios under any schedule, and
--               `Benchmark.Main.main` connects and runs the scenarios in their order.
--   Common, External and Tests are shared helpers, the interfaces of third-party code, and concrete
--   instances with the theorems at concrete inputs.
--
-- Third-party code is a parameter: `External.Json` (serde_json), `External.JetStream` (async_nats),
-- `Store.Database` and `Trace.Table` (the MySQL-compatible database behind sqlx), `Store.Mpsc`
-- (tokio), `Lock.KeyValue` (NATS KV), `License.Keys` (base64, Ed25519, the parsing of the payload),
-- `Ingest.Consumer`, and in `Store.Backend` the backoff crate and `from_utf8_lossy`. What the
-- theorems rely on stands beside each, as records of laws: a failed commit or acknowledgement may
-- have taken effect, a unique key refuses a repeated row, a filter matches token by token.
--
-- State is passed explicitly. An error path keeps the state that it leaves (`Exec` in
-- Common/Effects.antt). The `select!` loop of the writer and the loop of the ingester run over the
-- list of what happens to them, so that a theorem over all lists is a theorem over all schedules.
-- The loop of the limiter runs on fuel: two passes are enough for a task that is alone, on a clock
-- that is never set back. A panic is a value too: `none` for `new` with a channel of capacity 0 and for
-- the writer with a flush interval of 0, `Stop` for `connect`. The polling loop of the benchmark runs on fuel too: 3002 passes of 5 ms at
-- least outlast its deadline of 15 seconds.
--
-- Assumed: a 64-bit target; text keys compared byte by byte; one batch writer at a time, as the only
-- one to insert into `agent_events`, and one ingester, as the only one to insert into
-- `agent_traces`; a wall clock between 1970 and the end of u64; sequentially consistent atomics in
-- `Limits.Interleaved`; percentiles of lists short enough (below 2 ^ 45) for the index to be exact in
-- doubles.
-- Not modelled: what axum does with a request (paths, bodies); signals, log lines and the start-up
-- banner; the hooks of src/managed/ (stubs); the summary that the benchmark prints; the SDKs.
pub mod Common
pub mod External
pub mod Limits
pub mod License
pub mod Store
pub mod Trace
pub mod Ingest
pub mod Lock
pub mod Resurrection
pub mod Manager
pub mod Server
pub mod Benchmark
pub mod Main
pub mod Tests

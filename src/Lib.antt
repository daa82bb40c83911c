-- ===== src/Lib.antt =====
-- Transcodex: a video transcoding service of three Go programs over PostgreSQL and Redis. The API
-- server (api/) stores an upload, inserts a job row and enqueues the job; a worker (worker/) pops a
-- job, claims it by inserting an attempt under a lease, transcodes, uploads the outputs and
-- completes the job, or reports a failure; the reaper (reaper/) sweeps the tables for dead workers,
-- expired leases and queued jobs that Redis has lost. PostgreSQL holds the truth, Redis the order.
--
-- Files, and the code that each models:
--   Base and its children: Boolean tests, lists, integers and texts over the native numbers.
--   Db/Table, Db/Schema: the tables, rows and enums of migrations/*.up.sql, keyed by numbers that
--     stand for the UUIDs. Db/Sql, Db/Statements: a transaction as a function of its time and the
--     tables, and the statements with their constraints and the updated_at trigger.
--   Db/Invariant, Db/Held, Db/Evolves: well-formed tables, an attempt that holds its job, and how
--     tables may change over time. Db/Start, Db/Retire, Db/Retry, Db/Create, Db/Upkeep, Db/Effects:
--     the lemmas on one change each.
--   Redis, Redis/Tiers: the server as an interface with the documented effect of each command, and
--     an instance whose state is its keys.
--   Run: a program's calls. Each transaction and each script is one call, which is answered, never
--     takes effect, or takes effect with its answer lost; the list of these fates is part of the
--     world.
--   Env and its children: the helpers of the three config.go files, what strconv and strings do for
--     them, and the decimal texts of numbers. Api/Load, Worker/Load, Reaper/Load: LoadConfig.
--   Startup/Storage: pkg/storage/storage.go. Startup, Startup/Programs: pkg/postgres, pkg/redis, and
--     New and Close of the three programs. Startup/Closing: their theorem.
--   Queue and its children: pkg/queue/queue.go, its specification as a list of waiting jobs, and the
--     refinement. The scripts are one call each, as Redis runs them.
--   Worker/Transactions, Worker/Upkeep, Worker/Media, Worker/Process: worker/internal/worker
--     (processor.go, worker.go). markProcessing, completeJob and the transaction of handleFailure
--     have the names mark_processing, complete_job and fail_attempt. Worker/Claim, Complete, Fail,
--     Rows, Published, Steps, Success: their theorems. Worker/Renewal: renewLeaseUntilDone and
--     runHeartbeat. Worker/Loop: the loop of Run. Worker/Shutdown and its children: main of
--     worker/main.go, Run, the heartbeat and the context of a job as a transition system.
--     Worker/Helpers: failureActionFor, markDead, requeueJob.
--   Reaper/Transactions, Reaper/Sweep: reaper/internal/reaper/sweep.go. Reaper/Invariant, Steps,
--     Recovery, Ended, Expiry: their theorems. Reaper/Lock, Reaper/Leadership: the lock of reaper.go
--     and one sweep under it. Reaper/Loop: the loop of Run. Reaper/Mutex: the calls of all reapers on
--     the lock as a transition system. Reaper/Refresh: refreshLeadershipUntilDone between them.
--     Reaper/Helpers: requeueActionFor and markDead.
--   Api/Create, Api/Enqueue, Api/Upload: createQueuedJob, upload and storeUpload of
--     api/internal/server/handlers.go. Api/Form, Accepted, Priority, Steps: their
--     theorems. Api/Limit and its children: sizeLimitedReader, read by read, over an io.Reader.
--   Api/Reads, Api/Stats, Api/Stream: the handlers that read, in the same file, and Api/Metrics,
--     metrics.go beside it, over Db/Postgres, the rest of what the queries ask of the server, and
--     Db/Groups, GROUP BY. Api/Pages, Shown, Ages, Totals, Events, Scrape, Delivered: their
--     theorems, the last together with the worker and the benchmark. Db/Select: what a SELECT lists.
--   Benchmark, Benchmark/Summary: waitForJob, completeOutputSet and summarize of
--     cmd/benchmark/main.go. Benchmark/Outputs, Percentile, Rank: their theorems.
--   System: a step of the system is one call of any program with any arguments and any fate, the
--     passing of time, or a change of the coming fates; a path of steps covers every interleaving of
--     the calls. System/Calls, Paths: calls, and actions that are paths of steps. System/Invariant,
--     Exclusive, Ends, Handlers, Decisions: the theorems on paths, on what ends an attempt, on handlers,
--     and on the helpers that only tests call.
--   Tests: the theorems at concrete tables and keys.
--
-- Bounds: every loop is over a list or a text, or over the rounds or ticks before its context is done.
-- The consumer of an upload has as fuel one read more than the source has bytes, which is enough, since
-- each read that reports no error hands out a byte. show_digits takes the number itself as fuel, since a
-- number has fewer digits than its value. Time is in seconds, and in nanoseconds, with the wrap-around of
-- 64 bits, where the configuration is read. Numbers of retries are natural, as the CHECK constraints
-- demand, and grow by one up to max_retries, which is an INTEGER of the table, so they do not overflow.
-- The index of a percentile is computed exactly, and the float arithmetic of the source gives the same
-- one for any list that fits into memory. The id of an output stands for its key, its job and its type.
-- The four texts of a status, and the text of an identifier, stand for the value that they encode.
--
-- Parameters: the Redis server (Redis), ORDER BY and percentile_cont (Db/Postgres), the answers of the
-- client libraries at start (Startup), the io.Reader of an upload (Api/Limit), which makes no
-- empty read without an error, sorting (Benchmark/Summary), and the orders in which maps are visited
-- (Api/Metrics), each with an instance or a concrete value in Tests.
--
-- Not modelled: logging, routing, the main functions of the API and of the reaper, the HTTP
-- requests and the written report of the benchmark, and the front end. The goroutines that renew a
-- lease or the lock are steps of their own; in process_job the renewal acts only by cancelling the
-- job's context, which makes the calls that follow fail. The queries of the statistics run one after
-- the other. The deferred removal of the work directory, whose error is only logged, is left out. A
-- consumer of an upload reads until the first error, as the documentation of io.Reader asks.
pub mod Api
pub mod Base
pub mod Benchmark
pub mod Db
pub mod Env
pub mod Queue
pub mod Reaper
pub mod Redis
pub mod Run
pub mod Startup
pub mod System
pub mod Tests
pub mod Worker

-- ===== src/Api/Stats.antt =====
-- `collectStats` and `getStats` of api/internal/server/handlers.go. The queries of the errgroup run
-- at once; each only reads, so here they run one after the other, and any error is reported.
use transcodex.Base.{
  ℕ, ◌+◌, Bool, false, Option, none, some, List, [], ◌∷◌, leb, if◌then◌else◌, filter, map, length,
}
use transcodex.Base.Int.{ℤ, pos, minus}
use transcodex.Db.Table.{Table}
use transcodex.Db.Schema.{
  Job, JobStatus, Attempt, AttemptStatus, WorkerStatus, Db, is_queued, is_running,
}
use transcodex.Db.Postgres.{Postgres}
use transcodex.Db.Groups.{group_by, fill, sum_counts}
use transcodex.Redis.{Redis}
use transcodex.Run.{M, pure, script, attempt, ◌>>=◌}
use transcodex.Api.Reads.{Response, milliseconds, query, completed_attempt, total, reply_rows}

-- The keys of the three maps, told apart by a number
abbrev pub job_code : JobStatus → ℕ
job_code JobStatus.queued = 0
job_code JobStatus.processing = 1
job_code JobStatus.completed = 2
job_code JobStatus.dead = 3

abbrev pub attempt_code : AttemptStatus → ℕ
attempt_code AttemptStatus.running = 0
attempt_code AttemptStatus.completed = 1
attempt_code AttemptStatus.failed = 2
attempt_code AttemptStatus.expired = 3

abbrev pub worker_code : WorkerStatus → ℕ
worker_code WorkerStatus.idle = 0
worker_code WorkerStatus.busy = 1
worker_code WorkerStatus.dead = 2

pub record LatencyStats : Type 0 where
  pub queue_wait_p50_ms : Option ℤ
  pub queue_wait_p95_ms : Option ℤ
  pub processing_p50_ms : Option ℤ
  pub processing_p95_ms : Option ℤ
  pub total_p50_ms : Option ℤ
  pub total_p95_ms : Option ℤ

-- The key "total" of Workers is a field of its own; ages are in seconds.
pub record Stats : Type 0 where
  pub queue_depth : ℕ
  pub oldest_queued_age : Option ℤ
  pub active_lease_age : Option ℤ
  pub throughput_per_min : ℕ
  pub workers : WorkerStatus → ℕ
  pub workers_total : ℕ
  pub jobs : JobStatus → ℕ
  pub attempts : AttemptStatus → ℕ
  pub latency : LatencyStats

abbrev pub job_statuses : Db → List JobStatus
job_statuses db = map (λ e. e.1.status) db.jobs

abbrev pub attempt_statuses : Db → List AttemptStatus
attempt_statuses db = map (λ e. e.1.status) db.job_attempts

abbrev pub worker_statuses : Db → List WorkerStatus
worker_statuses db = map (λ e. e.1.status) db.workers

abbrev pub is_recent : ℕ → ℕ × Job → Bool
is_recent now (_, j) = elim j.status [
  | JobStatus.completed ↦ leb now (j.updated_at + 60)
  | _ ↦ false
]

abbrev pub select_throughput : ℕ → Db → ℕ
select_throughput now db = length (filter (is_recent now) db.jobs)

abbrev pub least : List ℕ → Option ℕ
least [] = none
least (t ∷ ts) = elim (least ts) [ none ↦ some t | some u ↦ some (if leb t u then t else u) ]

-- EXTRACT(EPOCH FROM (now() - min(…))), in seconds
abbrev pub age : ℕ → List ℕ → Option ℤ
age now ts = elim (least ts) [ none ↦ none | some t ↦ some (minus now t) ]

abbrev pub select_oldest_queued : ℕ → Db → Option ℤ
select_oldest_queued now db =
    age now (map (λ e. e.1.queue_entered_at) (filter (λ e. is_queued e.1.status) db.jobs))

abbrev pub select_oldest_running : ℕ → Db → Option ℤ
select_oldest_running now db =
    age now (map (λ e. e.1.started_at) (filter (λ e. is_running e.1.status) db.job_attempts))

-- The aggregates leave NULL out.
abbrev pub present : {A : Type 0} → List (Option A) → List A
present [] = []
present (none ∷ xs) = present xs
present (some x ∷ xs) = x ∷ present xs

-- a.status = 'completed' AND a.finished_at >= now() - interval '1 hour'
abbrev pub is_finished : ℕ → Attempt → Bool
is_finished now a = elim a.status [
  | AttemptStatus.completed ↦ elim a.finished_at [ none ↦ false | some t ↦ leb now (t + 3600) ]
  | _ ↦ false
]

-- job_attempts a JOIN jobs j ON j.completed_attempt_id = a.id
abbrev pub finished_jobs : ℕ → Db → Table Job → List (Attempt × Job)
finished_jobs now db [] = []
finished_jobs now db ((_, j) ∷ t) =
    let rest = finished_jobs now db t in
    elim (completed_attempt j db) [
      | none ↦ rest
      | some a ↦ if is_finished now a then (a, j) ∷ rest else rest
    ]

module _ (pg : Postgres) where
  abbrev pub select_latency : ℕ → Db → LatencyStats
  select_latency now db =
      let rows = finished_jobs now db db.jobs in
      let waits = map (λ e. milliseconds e.0.queue_entered_at e.0.started_at) rows in
      let works = map pos (present (map (λ e. e.0.processing_duration_ms) rows)) in
      let totals = present (map (λ e. total e.1) rows) in
      record {
        queue_wait_p50_ms = pg.percentile_cont 50 waits;
        queue_wait_p95_ms = pg.percentile_cont 95 waits;
        processing_p50_ms = pg.percentile_cont 50 works;
        processing_p95_ms = pg.percentile_cont 95 works;
        total_p50_ms = pg.percentile_cont 50 totals;
        total_p95_ms = pg.percentile_cont 95 totals;
      }

  -- `scard` is SCARD queued_jobs.
  module _ (r : Redis) (scard : r.State → ℕ) where
    -- `collectStats`
    unfoldable pub collect_stats : M r Stats
    collect_stats = do
      depth ← script (λ s. (scard s, s))
      jobs ← query r (λ _ db. group_by job_code (job_statuses db))
      workers ← query r (λ _ db. group_by worker_code (worker_statuses db))
      throughput ← query r select_throughput
      latency ← query r select_latency
      attempts ← query r (λ _ db. group_by attempt_code (attempt_statuses db))
      queued_age ← query r select_oldest_queued
      lease_age ← query r select_oldest_running
      pure (record {
        queue_depth = depth;
        oldest_queued_age = queued_age;
        active_lease_age = lease_age;
        throughput_per_min = throughput;
        workers = fill worker_code workers (λ _. 0);
        workers_total = sum_counts worker_code workers;
        jobs = fill job_code jobs (λ _. 0);
        attempts = fill attempt_code attempts (λ _. 0);
        latency = latency;
      })

    -- `getStats`
    unfoldable pub get_stats : M r (Response Stats)
    get_stats = do res ← attempt collect_stats; pure (reply_rows res)

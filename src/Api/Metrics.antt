-- ===== src/Api/Metrics.antt =====
-- api/internal/server/metrics.go: the statistics as lines of text. Go visits a map in any order, which
-- is a parameter: the list of its keys.
use transcodex.Base.{ℕ, Option, none, some, List, [], ◌∷◌, ◌++◌, map}
use transcodex.Base.Int.{ℤ, pos}
use transcodex.Base.Text.{codes}
use transcodex.Db.Schema.{Text, JobStatus, AttemptStatus, WorkerStatus}
use transcodex.Db.Sql.{Result, ok, err}
use transcodex.Db.Postgres.{Postgres}
use transcodex.Redis.{Redis}
use transcodex.Run.{M, pure, attempt, ◌>>=◌}
use transcodex.Env.Decimals.{show}
use transcodex.Api.Reads.{status_text}
use transcodex.Api.Stats.{Stats, collect_stats}

abbrev pub attempt_text : AttemptStatus → Text
attempt_text AttemptStatus.running = codes "running"
attempt_text AttemptStatus.completed = codes "completed"
attempt_text AttemptStatus.failed = codes "failed"
attempt_text AttemptStatus.expired = codes "expired"

-- The keys of Workers, with none for "total"
abbrev pub worker_text : Option WorkerStatus → Text
worker_text none = codes "total"
worker_text (some WorkerStatus.idle) = codes "idle"
worker_text (some WorkerStatus.busy) = codes "busy"
worker_text (some WorkerStatus.dead) = codes "dead"

abbrev pub prefix : Text → Text → Text
prefix name key = name ++ (codes "{status=" ++ (34 ∷ (key ++ (34 ∷ codes "} "))))

-- name{status="key"} count
abbrev pub sample : Text → Text → ℕ → Text
sample name key count = prefix name key ++ show (pos count)

-- `optionalFloat`, of a whole number of seconds
abbrev pub optional_float : Option ℤ → Text
optional_float none = codes "0"
optional_float (some z) = show z ++ codes ".000"

abbrev pub worker_count : Stats → Option WorkerStatus → ℕ
worker_count s none = s.workers_total
worker_count s (some w) = s.workers w

-- The keys of the last map
pub data Latency : Type 0 where
  queue_wait processing total : Latency

-- The orders in which the maps are visited
pub record Orders : Type 0 where
  pub jobs : List JobStatus
  pub workers : List (Option WorkerStatus)
  pub attempts : List AttemptStatus
  pub latencies : List Latency

abbrev pub latency_text : Latency → Text
latency_text queue_wait = codes "queue_wait"
latency_text processing = codes "processing"
latency_text total = codes "total"

abbrev pub latency_value : Stats → Latency → Option ℤ
latency_value s queue_wait = s.latency.queue_wait_p95_ms
latency_value s processing = s.latency.processing_p95_ms
latency_value s total = s.latency.total_p95_ms

abbrev pub latency_line : Text → Option ℤ → List Text
latency_line name none = []
latency_line name (some v) =
    (codes "transcodex_" ++ (name ++ (codes "_p95_milliseconds " ++ show v))) ∷ []

abbrev pub latency_lines : Stats → List Latency → List Text
latency_lines s [] = []
latency_lines s (l ∷ ls) = latency_line (latency_text l) (latency_value s l) ++ latency_lines s ls

abbrev pub head_lines : Stats → List Text
head_lines s =
    codes "# HELP transcodex_queue_depth Number of queued jobs known to Redis."
    ∷ codes "# TYPE transcodex_queue_depth gauge"
    ∷ (codes "transcodex_queue_depth " ++ show (pos s.queue_depth))
    ∷ codes "# HELP transcodex_throughput_per_minute Completed jobs in the last minute."
    ∷ codes "# TYPE transcodex_throughput_per_minute gauge"
    ∷ (codes "transcodex_throughput_per_minute " ++ show (pos s.throughput_per_min))
    ∷ codes "# HELP transcodex_oldest_queued_age_seconds Age of the oldest queued job."
    ∷ codes "# TYPE transcodex_oldest_queued_age_seconds gauge"
    ∷ (codes "transcodex_oldest_queued_age_seconds " ++ optional_float s.oldest_queued_age)
    ∷ codes "# HELP transcodex_active_lease_age_seconds Age of the oldest running attempt."
    ∷ codes "# TYPE transcodex_active_lease_age_seconds gauge"
    ∷ (codes "transcodex_active_lease_age_seconds " ++ optional_float s.active_lease_age)
    ∷ []

abbrev pub body : Orders → Stats → List Text
body o s =
    head_lines s
    ++ (map (λ k. sample (codes "transcodex_jobs") (status_text k) (s.jobs k)) o.jobs
        ++ (map (λ k. sample (codes "transcodex_workers") (worker_text k) (worker_count s k))
              o.workers
            ++ (map (λ k. sample (codes "transcodex_attempts") (attempt_text k) (s.attempts k))
                  o.attempts
                ++ latency_lines s o.latencies)))

-- The reply: 503, or the lines
pub data Exposition : Type 0 where
  unavailable : Exposition
  lines : List Text → Exposition

abbrev pub exposed : Orders → Result Stats → Exposition
exposed o (ok s) = lines (body o s)
exposed o (err e) = unavailable

module _ (pg : Postgres) (r : Redis) (scard : r.State → ℕ) where
  -- `metrics`
  unfoldable pub metrics : Orders → M r Exposition
  metrics o = do res ← attempt (collect_stats pg r scard); pure (exposed o res)

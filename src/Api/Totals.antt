-- ===== src/Api/Totals.antt =====
-- The numbers that `collectStats` reports are those of the tables.
use transcodex.Base.{ℕ, ◌+◌, ◌≤◌, ◌≡◌, refl, List, [], ◌∷◌, arith, length, map, filter, length-map}
use transcodex.Db.Table.{Table}
use transcodex.Db.Schema.{Job, JobStatus, AttemptStatus, WorkerStatus, Db, is_queued, is_running}
use transcodex.Db.Sql.{ok}
use transcodex.Db.Postgres.{Postgres}
use transcodex.Db.Groups.{count, fill-group_by, sum_counts-group_by}
use transcodex.Redis.{Redis}
use transcodex.Run.{calm, autocommit, transaction, script, pure, ◌>>=◌}
use transcodex.Api.Reads.{Response, success}
use transcodex.Api.Ages.{IsAge, age-IsAge}
use transcodex.Api.Stats.{
  Stats, job_code, attempt_code, worker_code, job_statuses, attempt_statuses, worker_statuses,
  is_recent, collect_stats,
}

pub job_partition :
    (ss : List JobStatus)
    → count job_code JobStatus.queued ss
        + count job_code JobStatus.processing ss
        + count job_code JobStatus.completed ss
        + count job_code JobStatus.dead ss
      ≡ length ss
job_partition [] = refl
job_partition (JobStatus.queued ∷ ss) = omega (arith, job_partition ss)
job_partition (JobStatus.processing ∷ ss) = omega (arith, job_partition ss)
job_partition (JobStatus.completed ∷ ss) = omega (arith, job_partition ss)
job_partition (JobStatus.dead ∷ ss) = omega (arith, job_partition ss)

attempt_partition :
    (ss : List AttemptStatus)
    → count attempt_code AttemptStatus.running ss
        + count attempt_code AttemptStatus.completed ss
        + count attempt_code AttemptStatus.failed ss
        + count attempt_code AttemptStatus.expired ss
      ≡ length ss
attempt_partition [] = refl
attempt_partition (AttemptStatus.running ∷ ss) = omega (arith, attempt_partition ss)
attempt_partition (AttemptStatus.completed ∷ ss) = omega (arith, attempt_partition ss)
attempt_partition (AttemptStatus.failed ∷ ss) = omega (arith, attempt_partition ss)
attempt_partition (AttemptStatus.expired ∷ ss) = omega (arith, attempt_partition ss)

worker_partition :
    (ss : List WorkerStatus)
    → count worker_code WorkerStatus.idle ss
        + count worker_code WorkerStatus.busy ss
        + count worker_code WorkerStatus.dead ss
      ≡ length ss
worker_partition [] = refl
worker_partition (WorkerStatus.idle ∷ ss) = omega (arith, worker_partition ss)
worker_partition (WorkerStatus.busy ∷ ss) = omega (arith, worker_partition ss)
worker_partition (WorkerStatus.dead ∷ ss) = omega (arith, worker_partition ss)

recent-bounded :
    (now : ℕ) (t : Table Job)
    → length (filter (is_recent now) t)
      ≤ count job_code JobStatus.completed (map (λ e. e.1.status) t)
recent-bounded now [] = omega arith
recent-bounded now ((i, j) ∷ t) = ground (arith, recent-bounded now t)

-- Reported numbers that agree with the tables
abbrev pub IsTotal : Db → Response Stats → Type 0
IsTotal db (success s) =
    (s.jobs JobStatus.queued
        + s.jobs JobStatus.processing
        + s.jobs JobStatus.completed
        + s.jobs JobStatus.dead
      ≡ length db.jobs)
    × (s.attempts AttemptStatus.running
          + s.attempts AttemptStatus.completed
          + s.attempts AttemptStatus.failed
          + s.attempts AttemptStatus.expired
        ≡ length db.job_attempts)
    × (s.workers WorkerStatus.idle + s.workers WorkerStatus.busy + s.workers WorkerStatus.dead
        ≡ s.workers_total)
    × (s.workers_total ≡ length db.workers)
    × (s.throughput_per_min ≤ s.jobs JobStatus.completed)
IsTotal db _ = ⊥

-- Each reported number but the latencies is what it is of the tables, of the clock and of the number
-- of members that Redis replies.
abbrev pub IsExact : ℕ → ℕ → Db → Stats → Type 0
IsExact depth now db s =
    (s.queue_depth ≡ depth)
    × ((k : JobStatus) → s.jobs k ≡ count job_code k (job_statuses db))
    × ((k : AttemptStatus) → s.attempts k ≡ count attempt_code k (attempt_statuses db))
    × ((k : WorkerStatus) → s.workers k ≡ count worker_code k (worker_statuses db))
    × (s.throughput_per_min ≡ length (filter (is_recent now) db.jobs))
    × IsAge now (map (λ e. e.1.queue_entered_at) (filter (λ e. is_queued e.1.status) db.jobs))
        s.oldest_queued_age
    × IsAge now (map (λ e. e.1.started_at) (filter (λ e. is_running e.1.status) db.job_attempts))
        s.active_lease_age
    × IsTotal db (success s)

pub collect_stats-IsExact :
    (pg : Postgres) (r : Redis) (scard : r.State → ℕ) (db : Db) (now : ℕ) (c : r.State)
    → (s : Stats) × (collect_stats pg r scard (calm db now c) ≡ (ok s, calm db now c))
      × IsExact (scard c) now db s
unfolding collect_stats script autocommit transaction pure ◌>>=◌
collect_stats-IsExact pg r scard db now c =
    let js = job_statuses db in
    let xs = attempt_statuses db in
    let ws = worker_statuses db in
    let fj = fill-group_by job_code in
    let fa = fill-group_by attempt_code in
    let fw = fill-group_by worker_code in
    (
      _,
      refl,
      (
        refl,
        λ k. fj k js,
        λ k. fa k xs,
        λ k. fw k ws,
        refl,
        age-IsAge now
            (map (λ e. e.1.queue_entered_at) (filter (λ e. is_queued e.1.status) db.jobs)),
        age-IsAge now
            (map (λ e. e.1.started_at) (filter (λ e. is_running e.1.status) db.job_attempts)),
        (
          omega (
            arith,
            fj JobStatus.queued js,
            fj JobStatus.processing js,
            fj JobStatus.completed js,
            fj JobStatus.dead js,
            job_partition js,
            length-map (λ e. e.1.status) db.jobs,
          ),
          omega (
            arith,
            fa AttemptStatus.running xs,
            fa AttemptStatus.completed xs,
            fa AttemptStatus.failed xs,
            fa AttemptStatus.expired xs,
            attempt_partition xs,
            length-map (λ e. e.1.status) db.job_attempts,
          ),
          omega (
            arith,
            fw WorkerStatus.idle ws,
            fw WorkerStatus.busy ws,
            fw WorkerStatus.dead ws,
            worker_partition ws,
            sum_counts-group_by worker_code ws,
          ),
          omega
              (arith, sum_counts-group_by worker_code ws, length-map (λ e. e.1.status) db.workers),
          omega (arith, fj JobStatus.completed js, recent-bounded now db.jobs),
        ),
      ),
    )

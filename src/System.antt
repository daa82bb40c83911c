-- ===== src/System.antt =====
-- The whole system: what the API servers, the workers and the reaper do to the world, call by call.
-- Apart from reads and from calls of other services, which change neither the tables nor Redis, a
-- handler makes no other calls, so paths of steps cover the ways in which any number of processes
-- interleave, and in which they crash.
use transcodex.Base.{ℕ, ◌+◌, Option, List, []}
use transcodex.Base.Int.{ℤ}
use transcodex.Db.Schema.{Text, Phase, FailureCategory, Db}
use transcodex.Redis.{Redis}
use transcodex.Run.{Fate, World, transaction, autocommit, script, lock_script}
use transcodex.Queue.{enqueue_script, pop_script}
use transcodex.Worker.{Worker, Output}
use transcodex.Worker.Transactions.{mark_processing, complete_job, fail_attempt}
use transcodex.Worker.Upkeep.{
  DurationField, renew_attempt_lease, set_attempt_phase, record_attempt_duration, set_worker_busy,
  set_worker_idle, register, heartbeat,
}
use transcodex.Reaper.Lock.{acquire, refresh, release}
use transcodex.Reaper.Transactions.{mark_worker_dead, requeue_job}
use transcodex.Api.Create.{create_job}
pub mod Calls
pub mod Paths
pub mod Invariant
pub mod Exclusive
pub mod Handlers
pub mod Decisions
pub mod Ends

module _ (r : Redis) where
  pub data Step (w : World r) : World r → Type 0 where
    create :
        (i : ℕ) (input_file : Text) (p max_retries : ℤ)
        → Step w (transaction (create_job i input_file p max_retries) w).1
    claim : (v : Worker) (i a : ℕ) → Step w (transaction (mark_processing v i a) w).1
    complete : (i a : ℕ) (os : List Output) → Step w (transaction (complete_job i a os) w).1
    fail : (i a : ℕ) (cause : Text) → Step w (transaction (fail_attempt i a cause) w).1
    renew : (v : Worker) (a : ℕ) → Step w (autocommit (renew_attempt_lease v a) w).1
    phase : (a : ℕ) (p : Phase) → Step w (autocommit (set_attempt_phase a p) w).1
    duration :
        (a : ℕ) (field : DurationField) (ms : ℕ)
        → Step w (autocommit (record_attempt_duration a field ms) w).1
    busy : (v : Worker) (i : ℕ) → Step w (autocommit (set_worker_busy v i) w).1
    idle : (v : Worker) → Step w (autocommit (set_worker_idle v) w).1
    start : (v : Worker) → Step w (autocommit (register v) w).1
    beat : (v : Worker) → Step w (autocommit (heartbeat v) w).1
    bury : (v : ℕ) → Step w (autocommit (mark_worker_dead v) w).1
    expire :
        (i : ℕ) (attempt_id : Option ℕ) (reason : FailureCategory)
        → Step w (transaction (requeue_job i attempt_id reason) w).1
    push : (i : ℕ) (p : ℤ) → Step w (script (enqueue_script r i p) w).1
    pull : Step w (script (pop_script r) w).1
    lead : (id ttl : ℕ) → Step w (lock_script (acquire id ttl) w).1
    stay : (id ttl : ℕ) → Step w (lock_script (refresh id ttl) w).1
    leave : (id : ℕ) → Step w (lock_script (release id) w).1
    -- Time passes.
    wait : (seconds : ℕ) → Step w (record w { now = w.now + seconds })
    -- What the next calls meet is anything at all.
    meet : (fates : List Fate) → Step w (record w { fates = fates })

  pub data Reach (w : World r) : World r → Type 0 where
    here : Reach w w
    next : {v u : World r} → Reach w v → Step v u → Reach w u

-- The tables after the migrations.
abbrev pub empty_db : Db
empty_db = record { jobs = []; job_attempts = []; workers = []; job_outputs = [] }

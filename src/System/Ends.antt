-- ===== src/System/Ends.antt =====
-- What the two ends of an attempt leave of the tables, row by row: its completion, and its removal
-- from the job by the reaper.
use transcodex.Base.{
  ℕ, suc, All, true, ◌≤◌, ◌<◌, ◌≡◌, ◌≢◌, ◌⊎◌, refl, inl, inr, false, Option, none, some, List,
  arith, Bool-cases, if◌then◌else◌,
}
use transcodex.Base.Int.{ℤ}
use transcodex.Db.Table.{lookup, lookup-modify_self, lookup-modify_ne}
use transcodex.Db.Schema.{Db, Job, JobStatus, Attempt, AttemptStatus, FailureCategory}
use transcodex.Db.Sql.{ok, commit}
use transcodex.Db.Statements.{touch}
use transcodex.Db.Held.{Held}
use transcodex.Db.Evolves.{outputs_of}
use transcodex.Db.Retry.{exhausted, retried, after_retry}
use transcodex.Worker.{Output}
use transcodex.Worker.Transactions.{complete_job, completed, attempt_completed}
use transcodex.Worker.Complete.{complete_job_held, after_completion, published-elsewhere}
use transcodex.Worker.Published.{has_output, published-All}
use transcodex.Reaper.Transactions.{requeue_job, attempt_expired, is_other}
use transcodex.Reaper.Invariant.{requeue_job_held}

-- Every row but that of the job and that of the attempt is as before.
abbrev pub Elsewhere : ℕ → ℕ → Db → Db → Type 0
Elsewhere i a db u =
    ((n : ℕ) → i ≢ n → lookup n u.jobs ≡ lookup n db.jobs)
    × ((b : ℕ) → a ≢ b → lookup b u.job_attempts ≡ lookup b db.job_attempts)
    × ((n : ℕ) → i ≢ n → outputs_of n u.job_outputs ≡ outputs_of n db.job_outputs)
    × (u.workers ≡ db.workers)

-- What stays of the row of a job
abbrev pub SameJob : Job → Job → Type 0
SameJob j k =
    (k.max_retries ≡ j.max_retries)
    × (k.priority ≡ j.priority)
    × (k.input_file ≡ j.input_file)
    × (k.created_at ≡ j.created_at)

-- What stays of the row of an attempt
abbrev pub SameAttempt : Attempt → Attempt → Type 0
SameAttempt x y =
    (y.job_id ≡ x.job_id)
    × (y.attempt_number ≡ x.attempt_number)
    × (y.worker_id ≡ x.worker_id)
    × (y.started_at ≡ x.started_at)

-- Job `k` is completed by attempt `a`, and attempt `y` is completed.
abbrev pub IsCompleted : ℕ → ℕ → Job → Attempt → Type 0
IsCompleted a now k y =
    (k.status ≡ JobStatus.completed)
    × (k.completed_attempt_id ≡ some a)
    × (k.completed_at ≡ some now)
    × (k.current_attempt_id ≡ none)
    × (y.status ≡ AttemptStatus.completed)
    × (y.finished_at ≡ some now)

-- Either retries are left: the job is queued with one more behind it, and its priority is handed on;
-- or none is: the job is dead, and nothing is.
abbrev pub IsRetried : ℕ → Job → Job → Option ℤ → Type 0
IsRetried now j k o =
    ((j.retry_count < j.max_retries)
      × (o ≡ some j.priority)
      × (k.status ≡ JobStatus.queued)
      × (k.retry_count ≡ suc j.retry_count)
      × (k.queue_entered_at ≡ now))
    ⊎ ((j.max_retries ≤ j.retry_count)
        × (o ≡ none)
        × (k.status ≡ JobStatus.dead)
        × (k.retry_count ≡ j.retry_count)
        × (k.queue_entered_at ≡ j.queue_entered_at))

abbrev pub IsExpired : ℕ → FailureCategory → Attempt → Type 0
IsExpired now reason y =
    (y.status ≡ AttemptStatus.expired)
    × (y.finished_at ≡ some now)
    × (y.failure_category ≡ some reason)

-- The attempt that holds a job, running and being the job's current one, completes it: the transaction
-- commits; the job is completed, by that attempt and now, has no current attempt any more, and has
-- its retries as before; the attempt is completed and finished now; of each type that is delivered an
-- output of the job and of that attempt is there; and no other job, no other attempt, no output of
-- another job and no worker changes.
pub complete_job_completes :
    (i a now : ℕ) (outputs : List Output) (db : Db) (j : Job) (x : Attempt)
    → lookup i db.jobs ≡ some j
    → Held db i a j x
    → (u : Db) × (complete_job i a outputs now db ≡ ok (commit tt, u))
      × ((k : Job) × (y : Attempt) × (lookup i u.jobs ≡ some k)
          × (lookup a u.job_attempts ≡ some y)
          × IsCompleted a now k y
          × (k.retry_count ≡ j.retry_count)
          × SameJob j k
          × SameAttempt x y)
      × All (λ o. has_output i o.type a u.job_outputs ≡ true) outputs
      × Elsewhere i a db u
complete_job_completes i a now outputs db j x e held = (
  after_completion i a now outputs db,
  complete_job_held i a now outputs db j x e held,
  (
    touch now (completed a now j),
    attempt_completed now x,
    lookup-modify_self i (λ k. touch now (completed a now k)) db.jobs j e,
    lookup-modify_self a (attempt_completed now) db.job_attempts x (row held),
    (refl, refl, refl, refl, refl, refl),
    refl,
    (refl, refl, refl, refl),
    (refl, refl, refl, refl),
  ),
  published-All i a now outputs db.job_outputs,
  (
    λ n ne. lookup-modify_ne i (λ k. touch now (completed a now k)) db.jobs n ne,
    λ b ne. lookup-modify_ne a (attempt_completed now) db.job_attempts b ne,
    λ n ne. published-elsewhere i a now n outputs db.job_outputs ne,
    refl,
  ),
)
  where
    row : Held db i a j x → lookup a db.job_attempts ≡ some x
    row (p, c, l, m, r, n) = l

retried-IsRetried :
    (now : ℕ) (j : Job)
    → IsRetried now j
        (touch now (retried (exhausted j) now j))
        (if exhausted j then none else some j.priority)
retried-IsRetried now j = elim (Bool-cases (exhausted j)) [
  | inl h ↦ rw h (inr (ground arith, refl, refl, refl, refl))
  | inr h ↦ rw h (inl (ground arith, refl, refl, omega arith, refl))
]

retried-SameJob :
    (now : ℕ) (j : Job)
    → SameJob j (touch now (retried (exhausted j) now j))
      × ((touch now (retried (exhausted j) now j)).current_attempt_id ≡ none)
retried-SameJob now j = elim (Bool-cases (exhausted j)) [
  | inl h ↦ rw h ((refl, refl, refl, refl), refl)
  | inr h ↦ rw h ((refl, refl, refl, refl), refl)
]

-- The reaper takes a job from the attempt that holds it, unless it has named another: the transaction
-- commits; the job has no current attempt any more, and is queued now, with one retry more behind
-- it, if it has retries left, and only then is its priority handed on to queue it in Redis, and is
-- dead if not; the attempt is expired for the given reason and finished now; and no other job, no
-- other attempt, no output of another job and no worker changes.
pub requeue_job_retries :
    (i a now : ℕ) (attempt_id : Option ℕ) (reason : FailureCategory) (db : Db) (j : Job)
    (x : Attempt)
    → lookup i db.jobs ≡ some j
    → Held db i a j x
    → is_other attempt_id a ≡ false
    → (o : Option ℤ) × (u : Db) × (requeue_job i attempt_id reason now db ≡ ok (commit o, u))
      × ((k : Job) × (y : Attempt) × (lookup i u.jobs ≡ some k)
          × (lookup a u.job_attempts ≡ some y)
          × IsRetried now j k o
          × (SameJob j k × (k.current_attempt_id ≡ none))
          × IsExpired now reason y
          × SameAttempt x y)
      × Elsewhere i a db u
requeue_job_retries i a now attempt_id reason db j x e held named = (
  (if exhausted j then none else some j.priority),
  after_retry i a now (attempt_expired reason) (exhausted j) db,
  requeue_job_held i a now attempt_id reason db j x e held named,
  (
    touch now (retried (exhausted j) now j),
    attempt_expired reason now x,
    lookup-modify_self i (λ k. touch now (retried (exhausted j) now k)) db.jobs j e,
    lookup-modify_self a (attempt_expired reason now) db.job_attempts x (row held),
    retried-IsRetried now j,
    retried-SameJob now j,
    (refl, refl, refl),
    (refl, refl, refl, refl),
  ),
  (
    λ n ne. lookup-modify_ne i (λ k. touch now (retried (exhausted j) now k)) db.jobs n ne,
    λ b ne. lookup-modify_ne a (attempt_expired reason now) db.job_attempts b ne,
    λ n ne. refl,
    refl,
  ),
)
  where
    row : Held db i a j x → lookup a db.job_attempts ≡ some x
    row (p, c, l, m, r, n) = l

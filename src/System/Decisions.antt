-- ===== src/System/Decisions.antt =====
-- The helpers of the worker and of the reaper that only tests call, against the transactions that
-- the two programs run in their place.
use transcodex.Base.{
  ℕ, ◌+◌, ◌≡◌, refl, ap, ◌∙◌, inl, inr, false, Option, none, some, arith, Bool-cases, if◌then◌else◌,
}
use transcodex.Base.Int.{ℤ}
use transcodex.Db.Table.{lookup, modify, lookup-modify_self}
use transcodex.Db.Schema.{Text, Db, Job, JobStatus, Attempt, FailureCategory}
use transcodex.Db.Sql.{ok, commit}
use transcodex.Db.Statements.{touch, always}
use transcodex.Db.Invariant.{Inv}
use transcodex.Db.Held.{Held}
use transcodex.Db.Retry.{exhausted, retried, after_retry}
use transcodex.Db.Effects.{update_job_hit}
use transcodex.Worker.Transactions.{fail_attempt, attempt_failed}
use transcodex.Worker.Fail.{fail_attempt_held}
use transcodex.Worker.Helpers as WorkerHelpers
use transcodex.Worker.Helpers.{FailureAction, failure_action_for, set_queued}
use transcodex.Reaper.Transactions.{requeue_job, is_other, attempt_expired}
use transcodex.Reaper.Invariant.{requeue_job_held}
use transcodex.Reaper.Helpers as ReaperHelpers
use transcodex.Reaper.Helpers.{RequeueAction, requeue_action_for}

-- What an action means: the status that the job gets, and the priority at which it is queued.
abbrev pub status_for : FailureAction → JobStatus
status_for FailureAction.action_requeue = JobStatus.queued
status_for FailureAction.action_mark_dead = JobStatus.dead

abbrev pub priority_for : FailureAction → Job → Option ℤ
priority_for FailureAction.action_requeue j = some j.priority
priority_for FailureAction.action_mark_dead j = none

abbrev pub of_reaper : RequeueAction → FailureAction
of_reaper RequeueAction.action_requeue = FailureAction.action_requeue
of_reaper RequeueAction.action_mark_dead = FailureAction.action_mark_dead

same_action : (j : Job) → of_reaper (requeue_action_for j) ≡ failure_action_for j
unfolding failure_action_for requeue_action_for
same_action j = ground arith

priority_lem :
    (j : Job)
    → (if exhausted j then none else some j.priority) ≡ priority_for (failure_action_for j) j
unfolding failure_action_for
priority_lem j = elim (Bool-cases (exhausted j)) [ inl h ↦ rw h refl | inr h ↦ rw h refl ]

status_lem :
    (j : Job) (now : ℕ)
    → (touch now (retried (exhausted j) now j)).status ≡ status_for (failure_action_for j)
unfolding failure_action_for
status_lem j now = elim (Bool-cases (exhausted j)) [ inl h ↦ rw h refl | inr h ↦ rw h refl ]

-- What is left of the job once its attempt has ended, by either program
abbrev Ends : ℕ → Job → FailureAction → Db → Type 0
Ends i j action db = (k : Job) × (lookup i db.jobs ≡ some k) × (k.status ≡ status_for action)

-- The tables are not well-formed: the job still names the attempt as its current one, though it has
-- a status in which no attempt may.
abbrev pub Breaks : ℕ → ℕ → JobStatus → Db → Type 0
Breaks i a status u =
    (Inv u → ⊥)
    × ((k : Job) × (lookup i u.jobs ≡ some k)
        × (k.status ≡ status)
        × (k.current_attempt_id ≡ some a))

module _ (i a now : ℕ) (db : Db) (j : Job) (x : Attempt) where
  after_retry-Ends :
      (ending : ℕ → Attempt → Attempt)
      → lookup i db.jobs ≡ some j
      → Ends i j (failure_action_for j) (after_retry i a now ending (exhausted j) db)
  after_retry-Ends ending e = (
    _,
    lookup-modify_self i (λ w. touch now (retried (exhausted j) now w)) db.jobs j e,
    status_lem j now,
  )

  -- The decision that the tested helpers `failureActionFor` and `requeueActionFor` return is the one that
  -- the transactions of `handleFailure` and of the reaper's `requeueJob` take: for the attempt
  -- that holds the job, both give the job the status that the action names, and hand on a priority,
  -- to queue it in Redis, exactly where the action is to requeue.
  pub held_attempt_follows_action :
      (cause : Text) (reason : FailureCategory)
      → lookup i db.jobs ≡ some j
      → Held db i a j x
      → let action = failure_action_for j in
        (of_reaper (requeue_action_for j) ≡ action)
        × ((u : Db) × (fail_attempt i a cause now db ≡ ok (commit (priority_for action j), u))
            × Ends i j action u)
        × ((u : Db) × (requeue_job i (some a) reason now db
              ≡ ok (commit (priority_for action j), u))
            × Ends i j action u)
  held_attempt_follows_action cause reason e held = (
    same_action j,
    (
      failed,
      fail_attempt_held i a now cause db j x e held
          ∙ ap (λ p. ok (commit p, failed)) (priority_lem j),
      after_retry-Ends (attempt_failed cause) e,
    ),
    (
      expired,
      requeue_job_held i a now (some a) reason db j x e held own
          ∙ ap (λ p. ok (commit p, expired)) (priority_lem j),
      after_retry-Ends (attempt_expired reason) e,
    ),
  )
    where
      failed : Db
      failed = after_retry i a now (attempt_failed cause) (exhausted j) db

      expired : Db
      expired = after_retry i a now (attempt_expired reason) (exhausted j) db

      own : is_other (some a) a ≡ false
      own = ground arith

  -- `markDead` and the UPDATE of `requeueJob`, the helpers that nothing calls, do not fit the tables: run on a
  -- job while an attempt holds it, each succeeds, gives the job its status (dead or queued) but
  -- leaves the attempt as its current one, and so leaves tables that are not well-formed.
  pub helpers_break :
      lookup i db.jobs ≡ some j
      → Held db i a j x
      → ((u : Db) × (WorkerHelpers.mark_dead i now db ≡ ok (1, u)) × Breaks i a JobStatus.dead u)
        × ((u : Db) × (ReaperHelpers.mark_dead i now db ≡ ok (1, u)) × Breaks i a JobStatus.dead u)
        × ((u : Db) × (set_queued i now db ≡ ok (1, u)) × Breaks i a JobStatus.queued u)
  unfolding WorkerHelpers.mark_dead ReaperHelpers.mark_dead set_queued
  helpers_break e (p, c, l, m, q, n) = (
    (
      _,
      update_job_hit i always dead now db j e refl,
      ((λ v. absurd (cc (c, ((v.job_ok i _ (found dead)).pointed).0))), (_, found dead, refl, c)),
    ),
    (
      _,
      update_job_hit i always dead now db j e refl,
      ((λ v. absurd (cc (c, ((v.job_ok i _ (found dead)).pointed).0))), (_, found dead, refl, c)),
    ),
    (
      _,
      update_job_hit i always queued now db j e refl,
      (
        (λ v. absurd (cc (c, ((v.job_ok i _ (found queued)).pointed).0))),
        (_, found queued, refl, c),
      ),
    ),
  )
    where
      dead : ℕ → Job → Job
      dead _ w = record w { status = JobStatus.dead }

      queued : ℕ → Job → Job
      queued _ w = record w { retry_count = w.retry_count + 1; status = JobStatus.queued }

      found :
          (set : ℕ → Job → Job)
          → lookup i (modify i (λ w. touch now (set now w)) db.jobs) ≡ some (touch now (set now j))
      found set = lookup-modify_self i (λ w. touch now (set now w)) db.jobs j e

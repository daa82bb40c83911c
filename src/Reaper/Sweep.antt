-- ===== src/Reaper/Sweep.antt =====
-- reaper/internal/reaper/sweep.go: `Sweep` and its three passes. Unlike the worker's requeue, the
-- reaper's hands an error of Redis on to its caller.
use transcodex.Base.{ℕ, Bool, true, false, Option, none, some, List, [], ◌∷◌}
use transcodex.Base.Int.{ℤ}
use transcodex.Db.Schema.{Job, FailureCategory}
use transcodex.Db.Statements.{select_job}
use transcodex.Redis.{Redis}
use transcodex.Run.{M, pure, transaction, autocommit, script, ◌>>=◌, ◌>>◌}
use transcodex.Queue.{enqueue}
use transcodex.Reaper.{Config}
use transcodex.Reaper.Transactions.{
  select_dead_workers, mark_worker_dead, select_expired, select_stale, requeue_job,
}

module _ (r : Redis) where
  unfoldable pub enqueue_again : ℕ → Option ℤ → M r (Unit {0})
  enqueue_again job_id none = pure tt
  enqueue_again job_id (some priority) = enqueue r job_id priority

  -- `requeueJob`; an attempt of `none` stands for the empty attemptID
  unfoldable pub requeue : ℕ → Option ℕ → FailureCategory → M r (Unit {0})
  unfolding enqueue_again
  requeue job_id attempt_id reason = do
    priority ← transaction (requeue_job job_id attempt_id reason)
    enqueue_again job_id priority

  -- The loop bodies of the three passes run until one of them fails.
  unfoldable pub for_each : {A : Type 0} → (A → M r (Unit {0})) → List A → M r (Unit {0})
  for_each f [] = pure tt
  for_each f (x ∷ xs) = do f x; for_each f xs

  unfoldable pub requeue_current_job : Option ℕ → M r (Unit {0})
  requeue_current_job none = pure tt
  requeue_current_job (some job_id) = requeue job_id none FailureCategory.worker_death

  unfoldable pub bury : ℕ × Option ℕ → M r (Unit {0})
  unfolding requeue_current_job
  bury (worker_id, current_job) = do
    autocommit (mark_worker_dead worker_id)
    requeue_current_job current_job

  -- `recoverDeadWorkers`
  unfoldable pub recover_dead_workers : Config → M r (Unit {0})
  unfolding bury
  recover_dead_workers c = do dead ← autocommit (select_dead_workers c); for_each bury dead

  unfoldable pub expire : ℕ × ℕ → M r (Unit {0})
  expire (job_id, attempt_id) = requeue job_id (some attempt_id) FailureCategory.lease_expired

  -- `recoverOrphanedJobs`
  unfoldable pub recover_orphaned_jobs : Config → M r (Unit {0})
  unfolding expire
  recover_orphaned_jobs c = do expired ← autocommit (select_expired c); for_each expire expired

  -- `queueContainsJob`
  unfoldable pub queue_contains_job : ℕ → M r Bool
  queue_contains_job job_id = script (λ s. (r.sismember job_id s, s))

  unfoldable pub enqueue_row : ℕ → Option Job → M r (Unit {0})
  enqueue_row job_id none = pure tt
  enqueue_row job_id (some j) = enqueue r job_id j.priority

  -- `enqueueJob`, with its `fetchJob`
  unfoldable pub enqueue_job : ℕ → M r (Unit {0})
  unfolding enqueue_row
  enqueue_job job_id = do row ← autocommit (select_job job_id); enqueue_row job_id row

  unfoldable pub restore_if : ℕ → Bool → M r (Unit {0})
  restore_if job_id true = pure tt
  restore_if job_id false = enqueue_job job_id

  unfoldable pub restore : ℕ → M r (Unit {0})
  unfolding restore_if
  restore job_id = do exists ← queue_contains_job job_id; restore_if job_id exists

  -- `recoverMissingQueueMessages`
  unfoldable pub recover_missing_queue_messages : Config → M r (Unit {0})
  unfolding restore
  recover_missing_queue_messages c = do
    job_ids ← autocommit (select_stale c)
    for_each restore job_ids

  -- `Sweep`
  unfoldable pub sweep : Config → M r (Unit {0})
  sweep c = do recover_dead_workers c; recover_orphaned_jobs c; recover_missing_queue_messages c

-- ===== src/Worker/Helpers.antt =====
-- The functions of worker/internal/worker/processor.go that only its tests call, or that nothing
-- calls: `failureActionFor`, `markDead` and `requeueJob`.
use transcodex.Base.{ℕ, ◌+◌, leb, if◌then◌else◌}
use transcodex.Db.Schema.{Job, JobStatus}
use transcodex.Db.Sql.{Sql, commit, ok, err}
use transcodex.Db.Statements.{update_job, always}
use transcodex.Redis.{Redis}
use transcodex.Run.{M, transaction, ◌>>◌}
use transcodex.Queue.{enqueue}

pub data FailureAction : Type 0 where
  action_requeue action_mark_dead : FailureAction

-- `failureActionFor`
unfoldable pub failure_action_for : Job → FailureAction
failure_action_for j = if leb j.max_retries j.retry_count then action_mark_dead else action_requeue

-- `markDead`
unfoldable pub mark_dead : ℕ → Sql ℕ
mark_dead job_id = update_job job_id always (λ _ j. record j { status = JobStatus.dead })

-- The UPDATE of `requeueJob`
unfoldable pub set_queued : ℕ → Sql ℕ
set_queued job_id =
    update_job job_id always
      (λ _ j. record j { retry_count = j.retry_count + 1; status = JobStatus.queued })

module _ (r : Redis) where
  -- `requeueJob`, of the job with this identifier and this row
  unfoldable pub requeue_fetched : ℕ → Job → M r (Unit {0})
  requeue_fetched job_id j = do
    transaction (λ now db. elim (set_queued job_id now db) [
      | ok (_, db') ↦ ok (commit tt, db')
      | err e ↦ err e
    ])
    enqueue r job_id j.priority

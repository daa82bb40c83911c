-- ===== src/Reaper/Helpers.antt =====
-- The functions of reaper/internal/reaper/sweep.go that only its tests call, or that nothing calls:
-- `requeueActionFor` and `markDead`.
use transcodex.Base.{ℕ, leb, if◌then◌else◌}
use transcodex.Db.Schema.{Job, JobStatus}
use transcodex.Db.Sql.{Sql}
use transcodex.Db.Statements.{update_job, always}

pub data RequeueAction : Type 0 where
  action_requeue action_mark_dead : RequeueAction

-- `requeueActionFor`
unfoldable pub requeue_action_for : Job → RequeueAction
requeue_action_for j = if leb j.max_retries j.retry_count then action_mark_dead else action_requeue

-- `markDead`
unfoldable pub mark_dead : ℕ → Sql ℕ
mark_dead job_id = update_job job_id always (λ _ j. record j { status = JobStatus.dead })

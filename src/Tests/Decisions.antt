-- ===== src/Tests/Decisions.antt =====
-- The helpers that only tests call, on the job that attempt 40 holds.
use transcodex.Base.{◌≡◌, refl, some}
use transcodex.Base.Text.{codes}
use transcodex.Base.Int.{pos}
use transcodex.Db.Table.{lookup}
use transcodex.Db.Schema.{Db, Job, JobStatus, FailureCategory}
use transcodex.Db.Sql.{ok, commit}
use transcodex.Worker.Transactions.{fail_attempt}
use transcodex.Worker.Helpers as WorkerHelpers
use transcodex.Worker.Helpers.{FailureAction, failure_action_for, set_queued}
use transcodex.Reaper.Transactions.{requeue_job}
use transcodex.Reaper.Helpers as ReaperHelpers
use transcodex.Reaper.Helpers.{requeue_action_for}
use transcodex.System.Decisions.{held_attempt_follows_action, helpers_break, Breaks, of_reaper}
use transcodex.Tests.Samples.{sample_job, sample_attempt, processing_db, processing_db-Held}

held_attempt_follows_action_example :
    (of_reaper (requeue_action_for sample_job) ≡ FailureAction.action_requeue)
    × ((u : Db) × (fail_attempt 7 40 (codes "ffmpeg") 200 processing_db
          ≡ ok (commit (some (pos 5)), u))
        × ((k : Job) × (lookup 7 u.jobs ≡ some k) × (k.status ≡ JobStatus.queued)))
    × ((u : Db) × (requeue_job 7 (some 40) FailureCategory.lease_expired 200 processing_db
          ≡ ok (commit (some (pos 5)), u))
        × ((k : Job) × (lookup 7 u.jobs ≡ some k) × (k.status ≡ JobStatus.queued)))
unfolding failure_action_for
held_attempt_follows_action_example =
    held_attempt_follows_action 7 40 200 processing_db sample_job sample_attempt (codes "ffmpeg")
      FailureCategory.lease_expired refl processing_db-Held

helpers_break_example :
    ((u : Db) × (WorkerHelpers.mark_dead 7 200 processing_db ≡ ok (1, u))
      × Breaks 7 40 JobStatus.dead u)
    × ((u : Db) × (ReaperHelpers.mark_dead 7 200 processing_db ≡ ok (1, u))
        × Breaks 7 40 JobStatus.dead u)
    × ((u : Db) × (set_queued 7 200 processing_db ≡ ok (1, u)) × Breaks 7 40 JobStatus.queued u)
helpers_break_example =
    helpers_break 7 40 200 processing_db sample_job sample_attempt refl processing_db-Held

-- ===== src/Api/Enqueue.antt =====
-- `createQueuedJob` of api/internal/server/handlers.go: once the row is committed, the queue entry is
-- the reaper's to restore, so an error of Redis is only logged.
use transcodex.Base.{ℕ}
use transcodex.Base.Int.{ℤ}
use transcodex.Db.Schema.{Text}
use transcodex.Redis.{Redis}
use transcodex.Run.{M, pure, transaction, attempt, ◌>>◌}
use transcodex.Queue.{enqueue}
use transcodex.Api.{Config}
use transcodex.Api.Create.{create_job}

module _ (r : Redis) where
  unfoldable pub create_queued_job : Config → ℕ → Text → ℤ → M r (Unit {0})
  create_queued_job c job_id input_file priority = do
    transaction (create_job job_id input_file priority c.worker_max_retries)
    attempt (enqueue r job_id priority)
    pure tt

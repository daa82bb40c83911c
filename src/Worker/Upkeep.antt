-- ===== src/Worker/Upkeep.antt =====
-- The single statements of worker/internal/worker that keep the attempt's row and the worker's row
-- up to date.
use transcodex.Base.{ℕ, ◌+◌, ◌&&◌, true, none, some, ◌∷◌, if◌then◌else◌}
use transcodex.Db.Table.{lookup, has_key, modify}
use transcodex.Db.Schema.{Attempt, WorkerRow, WorkerStatus, Phase, is_running}
use transcodex.Db.Sql.{Sql, ok}
use transcodex.Db.Statements.{update_attempt, update_worker, accepts}
use transcodex.Worker.{Worker}
use transcodex.Worker.Transactions.{holds}

-- `renewAttemptLease`, with the number of rows affected
unfoldable pub renew_attempt_lease : Worker → ℕ → Sql ℕ
renew_attempt_lease w attempt_id now db =
    update_attempt attempt_id
      (λ a. is_running a.status && accepts (holds attempt_id) (lookup a.job_id db.jobs))
      (λ t a. record a { last_heartbeat = t; lease_expires_at = t + w.config.lease_ttl }) now db

-- `setAttemptPhase`
unfoldable pub set_attempt_phase : ℕ → Phase → Sql ℕ
set_attempt_phase attempt_id phase =
    update_attempt attempt_id (λ a. is_running a.status) (λ _ a. record a { current_phase = phase })

-- The columns that `recordAttemptDuration` knows.
pub data DurationField : Type 0 where
  download processing upload : DurationField

abbrev pub with_duration : DurationField → ℕ → Attempt → Attempt
with_duration DurationField.download ms a = record a { download_duration_ms = some ms }
with_duration DurationField.processing ms a = record a { processing_duration_ms = some ms }
with_duration DurationField.upload ms a = record a { upload_duration_ms = some ms }

-- `recordAttemptDuration`
unfoldable pub record_attempt_duration : ℕ → DurationField → ℕ → Sql ℕ
record_attempt_duration attempt_id field ms =
    update_attempt attempt_id (λ _. true) (λ _. with_duration field ms)

-- `setWorkerBusy`
unfoldable pub set_worker_busy : Worker → ℕ → Sql ℕ
set_worker_busy w job_id = update_worker w.id (λ now row. record row {
  status = WorkerStatus.busy;
  current_job = some job_id;
  last_heartbeat = now;
})

-- `setWorkerIdle`
unfoldable pub set_worker_idle : Worker → Sql ℕ
set_worker_idle w =
    update_worker w.id (λ now row. record row {
      status = WorkerStatus.idle;
      current_job = none;
      last_heartbeat = now;
    })

-- `register`
unfoldable pub register : Worker → Sql (Unit {0})
register w now db =
    let row : WorkerRow = record {
      status = WorkerStatus.idle;
      current_job = none;
      last_heartbeat = now;
    } in
    if has_key w.id db.workers
    then ok (tt, record db { workers = modify w.id (λ _. row) db.workers })
    else ok (tt, record db { workers = (w.id, row) ∷ db.workers })

-- `heartbeat`
unfoldable pub heartbeat : Worker → Sql ℕ
heartbeat w = update_worker w.id (λ now row. record row { last_heartbeat = now })

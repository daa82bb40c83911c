-- ===== src/Worker/Process.antt =====
-- worker/internal/worker: `processJob` with its failure handling, `runJob`, and one round of `Run`.
-- The goroutine that renews the lease acts on the job's context only: when the lease is lost, the
-- calls that follow fail.
use transcodex.Base.{ℕ, Option, none, some}
use transcodex.Base.Int.{ℤ}
use transcodex.Db.Schema.{Text, Job, Phase}
use transcodex.Db.Sql.{Result, ok, err, stale_attempt, already_claimed}
use transcodex.Db.Statements.{select_job}
use transcodex.Redis.{Redis}
use transcodex.Run.{M, pure, throw, transaction, autocommit, external, attempt, ◌>>=◌, ◌>>◌}
use transcodex.Queue.{enqueue, pop}
use transcodex.Worker.{Worker, QueueMessage, Surroundings}
use transcodex.Worker.Media.{download_input, run_ffmpeg_jobs, upload_outputs, join_path}
use transcodex.Worker.Transactions.{mark_processing, complete_job, fail_attempt}
use transcodex.Worker.Upkeep.{
  DurationField, set_attempt_phase, record_attempt_duration, set_worker_busy, set_worker_idle,
}

module _ (r : Redis) where
  -- The requeue at the end of `handleFailure`; its error is only logged.
  unfoldable pub requeue : ℕ → Result (Option ℤ) → M r (Unit {0})
  requeue job_id (ok (some priority)) = do attempt (enqueue r job_id priority); pure tt
  requeue job_id (ok none) = pure tt
  requeue job_id (err e) = pure tt

  -- `handleFailure`
  unfoldable pub handle_failure : ℕ → ℕ → Text → M r (Unit {0})
  unfolding requeue
  handle_failure job_id attempt_id cause = do
    outcome ← attempt (transaction (fail_attempt job_id attempt_id cause))
    requeue job_id outcome

  unfoldable pub phase : ℕ → Phase → M r ℕ
  phase attempt_id p = autocommit (set_attempt_phase attempt_id p)

  unfoldable pub duration : ℕ → DurationField → ℕ → M r ℕ
  duration attempt_id field ms = autocommit (record_attempt_duration attempt_id field ms)

  -- `runJob`: os.MkdirAll, then the four phases.
  unfoldable pub run_job : Worker → Surroundings → QueueMessage → ℕ → M r (Unit {0})
  unfolding phase duration
  run_job w s msg attempt_id = do
    let work_dir = join_path s.temp_root (s.show_id msg.job_id)
    external
    phase attempt_id Phase.downloading
    download_input r
    duration attempt_id DurationField.download s.download_ms
    phase attempt_id Phase.processing
    outputs ← run_ffmpeg_jobs r s work_dir w.config.processing_mode
    duration attempt_id DurationField.processing s.processing_ms
    phase attempt_id Phase.uploading
    uploads ← upload_outputs r w.config s msg.job_id attempt_id outputs
    duration attempt_id DurationField.upload s.upload_ms
    phase attempt_id Phase.completing
    transaction (complete_job msg.job_id attempt_id uploads)

  -- The deferred `setWorkerIdle`, whose error is only logged.
  unfoldable pub idle : Worker → M r (Unit {0})
  idle w = do attempt (autocommit (set_worker_idle w)); pure tt

  -- What `processJob` returns after `runJob`.
  unfoldable pub finish : Worker → ℕ → ℕ → Text → Result (Unit {0}) → M r (Unit {0})
  unfolding idle
  finish w job_id attempt_id cause (ok _) = idle w
  finish w job_id attempt_id cause (err stale_attempt) = idle w
  finish w job_id attempt_id cause (err e) = do
    handle_failure job_id attempt_id cause
    idle w
    throw e

  unfoldable pub begin : Worker → Surroundings → QueueMessage → ℕ → Text → Result ℕ → M r (Unit {0})
  unfolding finish
  begin w s msg attempt_id cause (err e) = do handle_failure msg.job_id attempt_id cause; throw e
  begin w s msg attempt_id cause (ok _) = do
    outcome ← attempt (run_job w s msg attempt_id)
    finish w msg.job_id attempt_id cause outcome

  -- `processJob`, with the identifier of its attempt and the text of the error that it may meet
  unfoldable pub process_job : Worker → Surroundings → QueueMessage → ℕ → Text → M r (Unit {0})
  unfolding begin
  process_job w s msg fresh_id cause = do
    claim ← transaction (mark_processing w msg.job_id fresh_id)
    elim claim [
      | none ↦ throw already_claimed
      | some attempt_id ↦ (do
        busy ← attempt (autocommit (set_worker_busy w msg.job_id))
        begin w s msg attempt_id cause busy)
    ]

  unfoldable pub message : ℕ → Job → QueueMessage
  message job_id j = record { job_id = job_id; input_file = j.input_file; priority = j.priority }

  -- `poll`, with `none` where the job of the queue entry is gone
  unfoldable pub poll : M r (Option QueueMessage)
  unfolding message
  poll = do
    job_id ← pop r
    row ← autocommit (select_job job_id)
    elim row [ none ↦ pure none | some j ↦ pure (some (message job_id j)) ]

  unfoldable pub handle :
      Worker → Surroundings → ℕ → Text → Result (Option QueueMessage) → M r (Unit {0})
  handle w s fresh_id cause (ok (some msg)) = do
    attempt (process_job w s msg fresh_id cause)
    pure tt
  handle w s fresh_id cause (ok none) = pure tt
  handle w s fresh_id cause (err e) = pure tt

  -- One round of the loop of `Run`; the waits of an idle round are left out.
  unfoldable pub run_round : Worker → Surroundings → ℕ → Text → M r (Unit {0})
  unfolding handle
  run_round w s fresh_id cause = do msg ← attempt poll; handle w s fresh_id cause msg

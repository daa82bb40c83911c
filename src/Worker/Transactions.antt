-- ===== src/Worker/Transactions.antt =====
-- The statements of worker/internal/worker/processor.go and worker.go that change the tables, one
-- definition for each transaction or single statement.
use transcodex.Base.{
  ℕ, ◌+◌, Bool, ◌&&◌, Option, none, some, List, [], ◌∷◌, ◌==◌, leb, if◌then◌else◌, take,
}
use transcodex.Base.Int.{ℤ}
use transcodex.Db.Schema.{
  Text, Job, JobStatus, Attempt, AttemptStatus, OutputRow, Phase, FailureCategory, is_queued,
  is_processing, is_running,
}
use transcodex.Db.Sql.{Sql, Decision, commit, give_up, pure, throw, stale_attempt, ◌>>=◌, ◌>>◌}
use transcodex.Db.Statements.{
  select_job, select_current, update_job, update_attempt, insert_attempt, insert_output, time,
  is_id, is_null, killed, requeued, always,
}
use transcodex.Worker.{Worker, Output}

-- The row that `markProcessing` inserts.
abbrev pub new_attempt : Worker → ℕ → ℕ → Job → Attempt
new_attempt w now job_id j = record {
  job_id = job_id;
  attempt_number = j.retry_count + 1;
  worker_id = w.id;
  status = AttemptStatus.running;
  queue_entered_at = j.queue_entered_at;
  started_at = now;
  last_heartbeat = now;
  lease_expires_at = now + w.config.lease_ttl;
  finished_at = none;
  current_phase = Phase.claiming;
  processing_mode = w.config.processing_mode;
  failure_category = none;
  failure_detail = none;
  download_duration_ms = none;
  processing_duration_ms = none;
  upload_duration_ms = none;
}

abbrev pub claimed : ℕ → Job → Job
claimed attempt_id j = record j {
  status = JobStatus.processing;
  current_attempt_id = some attempt_id;
}

abbrev pub claimable : Job → Bool
claimable j = is_queued j.status && is_null j.current_attempt_id

claim_row : Worker → ℕ → ℕ → Job → Sql (Decision (Option ℕ))
claim_row w job_id attempt_id j =
    if is_queued j.status
    then (do
      now ← time
      insert_attempt attempt_id (new_attempt w now job_id j)
      update_job job_id claimable (λ _. claimed attempt_id)
      pure (commit (some attempt_id)))
    else pure (give_up none)

-- `markProcessing`, with the identifier that uuid.NewString makes; `none` if nothing was claimed.
unfoldable pub mark_processing : Worker → ℕ → ℕ → Sql (Decision (Option ℕ))
unfolding claim_row
mark_processing w job_id attempt_id = do
  row ← select_job job_id
  elim row [ none ↦ pure (give_up none) | some j ↦ claim_row w job_id attempt_id j ]

abbrev pub completed : ℕ → ℕ → Job → Job
completed attempt_id now j = record j {
  status = JobStatus.completed;
  completed_attempt_id = some attempt_id;
  completed_at = some now;
  current_attempt_id = none;
}

abbrev pub attempt_completed : ℕ → Attempt → Attempt
attempt_completed now a = record a {
  status = AttemptStatus.completed;
  finished_at = some now;
  current_phase = Phase.completed;
}

abbrev pub output_row : ℕ → ℕ → ℕ → Output → OutputRow
output_row job_id attempt_id now o = record {
  job_id = job_id;
  type = o.type;
  attempt_id = attempt_id;
  cdn_url = o.cdn_url;
  file_size = o.file_size;
  created_at = now;
}

-- The loop of `completeJob` over the outputs.
unfoldable pub insert_outputs : ℕ → ℕ → List Output → Sql (Unit {0})
insert_outputs job_id attempt_id [] = pure tt
insert_outputs job_id attempt_id (o ∷ os) = do
  now ← time
  insert_output (output_row job_id attempt_id now o)
  insert_outputs job_id attempt_id os

abbrev pub holds : ℕ → Job → Bool
holds attempt_id j = is_processing j.status && is_id attempt_id j.current_attempt_id

complete_rest : ℕ → ℕ → List Output → Sql (Decision (Unit {0}))
complete_rest job_id attempt_id outputs = do
  insert_outputs job_id attempt_id outputs
  update_attempt attempt_id (λ a. is_running a.status) attempt_completed
  pure (commit tt)

-- `completeJob`
unfoldable pub complete_job : ℕ → ℕ → List Output → Sql (Decision (Unit {0}))
unfolding complete_rest
complete_job job_id attempt_id outputs = do
  affected ← update_job job_id (holds attempt_id) (completed attempt_id)
  if affected == 1 then complete_rest job_id attempt_id outputs else throw stale_attempt

abbrev pub attempt_failed : Text → ℕ → Attempt → Attempt
attempt_failed cause now a = record a {
  status = AttemptStatus.failed;
  finished_at = some now;
  failure_category = some FailureCategory.processing_failure;
  failure_detail = some (take 500 cause);
}

retire_row : ℕ → ℕ → (ℕ → Attempt → Attempt) → Job → Sql (Decision (Option ℤ))
retire_row job_id attempt_id ending j = do
  update_attempt attempt_id (λ a. is_running a.status) ending
  if leb j.max_retries j.retry_count
      then (do update_job job_id always (λ _. killed); pure (commit none))
      else (do update_job job_id always requeued; pure (commit (some j.priority)))

fail_row : ℕ → ℕ → Text → Job → Sql (Decision (Option ℤ))
unfolding retire_row
fail_row job_id attempt_id cause j =
    if is_processing j.status
    then retire_row job_id attempt_id (attempt_failed cause) j
    else pure (give_up none)

-- The transaction of `handleFailure`, with the priority at which the job is to be queued again.
unfoldable pub fail_attempt : ℕ → ℕ → Text → Sql (Decision (Option ℤ))
unfolding fail_row
fail_attempt job_id attempt_id cause = do
  row ← select_current job_id attempt_id
  elim row [ none ↦ pure (give_up none) | some j ↦ fail_row job_id attempt_id cause j ]

-- ===== src/Reaper/Transactions.antt =====
-- The statements of reaper/internal/reaper/sweep.go, one definition for each transaction or single
-- statement. A SELECT lists its rows in the order of the table.
use transcodex.Base.{
  ℕ, ◌+◌, Bool, false, not, ◌&&◌, ◌||◌, Option, none, some, List, ◌==◌, leb, ltb, if◌then◌else◌,
  filter, map,
}
use transcodex.Base.Int.{ℤ}
use transcodex.Db.Schema.{
  Job, Attempt, AttemptStatus, WorkerRow, WorkerStatus, FailureCategory, is_queued, is_processing,
  is_running, is_busy,
}
use transcodex.Db.Sql.{Sql, Decision, commit, give_up, ok, pure, ◌>>=◌, ◌>>◌}
use transcodex.Db.Statements.{
  select_job, update_job, update_attempt, update_worker, killed, requeued, always,
}
use transcodex.Reaper.{Config}

-- last_heartbeat < now() - threshold, with the subtraction carried over.
abbrev pub is_before : ℕ → ℕ → ℕ → Bool
is_before t threshold now = ltb (t + threshold) now

abbrev pub is_silent : Config → ℕ → ℕ × WorkerRow → Bool
is_silent c now (_, w) = is_busy w.status && is_before w.last_heartbeat c.dead_worker_threshold now

-- The busy workers whose heartbeat is too old, with their current job.
abbrev pub select_dead_workers : Config → Sql (List (ℕ × Option ℕ))
select_dead_workers c now db =
    ok (map (λ e. (e.0, e.1.current_job)) (filter (is_silent c now) db.workers), db)

-- UPDATE workers SET status = 'dead', current_job = NULL
abbrev pub mark_worker_dead : ℕ → Sql ℕ
mark_worker_dead worker_id =
    update_worker worker_id (λ _ w. record w { status = WorkerStatus.dead; current_job = none })

abbrev pub is_expired : Config → ℕ → ℕ × Attempt → Bool
is_expired c now (_, a) =
    is_running a.status && is_before a.lease_expires_at c.lease_expiry_grace now

-- The running attempts whose lease has run out, each behind its job.
abbrev pub select_expired : Config → Sql (List (ℕ × ℕ))
select_expired c now db =
    ok (map (λ e. (e.1.job_id, e.0)) (filter (is_expired c now) db.job_attempts), db)

abbrev pub is_stale : Config → ℕ → ℕ × Job → Bool
is_stale c now (_, j) = is_queued j.status && is_before j.updated_at c.stale_queue_threshold now

-- The jobs that have been queued for long.
abbrev pub select_stale : Config → Sql (List ℕ)
select_stale c now db = ok (map (λ e. e.0) (filter (is_stale c now) db.jobs), db)

abbrev pub attempt_expired : FailureCategory → ℕ → Attempt → Attempt
attempt_expired reason now a = record a {
  status = AttemptStatus.expired;
  finished_at = some now;
  failure_category = some reason;
}

-- attemptID != "" && *currentAttempt != attemptID
abbrev pub is_other : Option ℕ → ℕ → Bool
is_other none current = false
is_other (some a) current = not (current == a)

requeue_row : ℕ → ℕ → FailureCategory → Job → Sql (Decision (Option ℤ))
requeue_row job_id current reason j = do
  update_attempt current (λ a. is_running a.status) (attempt_expired reason)
  if leb j.max_retries j.retry_count
      then (do update_job job_id always (λ _. killed); pure (commit none))
      else (do update_job job_id always requeued; pure (commit (some j.priority)))

requeue_current : ℕ → Option ℕ → FailureCategory → Job → Option ℕ → Sql (Decision (Option ℤ))
unfolding requeue_row
requeue_current job_id attempt_id reason j none = pure (give_up none)
requeue_current job_id attempt_id reason j (some current) =
    if not (is_processing j.status) || is_other attempt_id current
    then pure (give_up none)
    else requeue_row job_id current reason j

-- The transaction of `requeueJob`, with the priority at which the job is to be queued again.
unfoldable pub requeue_job : ℕ → Option ℕ → FailureCategory → Sql (Decision (Option ℤ))
unfolding requeue_current
requeue_job job_id attempt_id reason = do
  row ← select_job job_id
  elim row [
    | none ↦ pure (give_up none)
    | some j ↦ requeue_current job_id attempt_id reason j j.current_attempt_id
  ]

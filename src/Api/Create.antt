-- ===== src/Api/Create.antt =====
-- The transaction of `createQueuedJob` in api/internal/server/handlers.go.
use transcodex.Base.{ℕ, refl, inl, inr, none}
use transcodex.Base.Int.{ℤ, pos, negsuc}
use transcodex.Db.Schema.{Text, Job, JobStatus, Db}
use transcodex.Db.Sql.{Sql, Decision, commit, constraint, pure, throw, ◌>>=◌, ◌>>◌}
use transcodex.Db.Statements.{insert_job, time}
use transcodex.Db.Invariant.{Inv}
use transcodex.Db.Evolves.{Keeps, create-Evolves}
use transcodex.Db.Effects.{insert_job_cases}
use transcodex.Db.Create.{create-Inv}

abbrev pub new_job : ℕ → ℕ → ℤ → Text → Job
new_job now max_retries priority input_file = record {
  status = JobStatus.queued;
  retry_count = 0;
  max_retries = max_retries;
  priority = priority;
  input_file = input_file;
  created_at = now;
  updated_at = now;
  queue_entered_at = now;
  current_attempt_id = none;
  completed_attempt_id = none;
  completed_at = none;
}

-- The INSERT with its CHECK (max_retries >= 0).
unfoldable pub create_job : ℕ → Text → ℤ → ℤ → Sql (Decision (Unit {0}))
create_job job_id input_file priority (pos n) = do
  now ← time
  insert_job job_id (new_job now n priority input_file)
  pure (commit tt)
create_job job_id input_file priority (negsuc n) = throw constraint

pub create_job-Keeps :
    (i : ℕ) (input_file : Text) (priority max_retries : ℤ) (now : ℕ) (db : Db)
    → Inv db
    → Keeps db (create_job i input_file priority max_retries now db)
unfolding create_job
create_job-Keeps i input_file priority (negsuc n) now db v = tt
create_job-Keeps i input_file priority (pos n) now db v =
    elim (insert_job_cases i (new_job now n priority input_file) now db) [
      | inl refused ↦ rw (refused, ◌>>=◌, Keeps) tt
      | inr (fresh, inserted) ↦
          rw (inserted, ◌>>=◌, Keeps)
            (
              create-Inv db v i (new_job now n priority input_file) fresh refl refl refl refl,
              create-Evolves db i (new_job now n priority input_file) fresh,
            )
    ]

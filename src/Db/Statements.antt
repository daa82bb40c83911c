-- ===== src/Db/Statements.antt =====
-- The SQL statements that the programs build their transactions from, clause by clause: a WHERE
-- clause on the key and a further guard, a SET list, and the constraints that an INSERT meets.
-- Every UPDATE of jobs sets updated_at, by the trigger trg_jobs_updated_at.
use transcodex.Base.{
  ℕ, ◌+◌, Bool, true, false, ◌&&◌, ◌||◌, Option, none, some, List, [], ◌∷◌, ◌==◌, if◌then◌else◌,
}
use transcodex.Db.Table.{Table, lookup, has_key, modify}
use transcodex.Db.Schema.{Job, JobStatus, Attempt, WorkerRow, OutputRow, same_type}
use transcodex.Db.Sql.{Sql, ok, err, constraint}

-- SELECT … FROM jobs WHERE id = $1, with `none` for pgx.ErrNoRows.
abbrev pub select_job : ℕ → Sql (Option Job)
select_job job_id now db = ok (lookup job_id db.jobs, db)

abbrev pub accepts {ℓ} : {V : Type ℓ} → (V → Bool) → Option V → Bool
accepts p none = false
accepts p (some v) = p v

-- set_updated_at
abbrev pub touch : ℕ → Job → Job
touch now j = record j { updated_at = now }

-- UPDATE jobs SET … WHERE id = $1 AND …, with the number of rows affected.
unfoldable pub update_job : ℕ → (Job → Bool) → (ℕ → Job → Job) → Sql ℕ
update_job job_id guard set now db =
    if accepts guard (lookup job_id db.jobs)
    then ok (1, record db { jobs = modify job_id (λ j. touch now (set now j)) db.jobs })
    else ok (0, db)

-- UPDATE job_attempts SET … WHERE id = $1 AND …
unfoldable pub update_attempt : ℕ → (Attempt → Bool) → (ℕ → Attempt → Attempt) → Sql ℕ
update_attempt attempt_id guard set now db =
    if accepts guard (lookup attempt_id db.job_attempts)
    then ok (1, record db { job_attempts = modify attempt_id (set now) db.job_attempts })
    else ok (0, db)

-- UPDATE workers SET … WHERE id = $1
unfoldable pub update_worker : ℕ → (ℕ → WorkerRow → WorkerRow) → Sql ℕ
update_worker worker_id set now db =
    if has_key worker_id db.workers
    then ok (1, record db { workers = modify worker_id (set now) db.workers })
    else ok (0, db)

-- Does a row hold this pair of UNIQUE (job_id, attempt_number)?
abbrev pub is_numbered : ℕ → ℕ → Table Attempt → Bool
is_numbered job_id number [] = false
is_numbered job_id number ((_, a) ∷ t) =
    (a.job_id == job_id && a.attempt_number == number) || is_numbered job_id number t

-- INSERT INTO job_attempts: the primary key, UNIQUE (job_id, attempt_number), and the references
-- to jobs and to workers.
unfoldable pub insert_attempt : ℕ → Attempt → Sql (Unit {0})
insert_attempt attempt_id a now db =
    if has_key attempt_id db.job_attempts || is_numbered a.job_id a.attempt_number db.job_attempts
    then err constraint
    else if has_key a.job_id db.jobs && has_key a.worker_id db.workers
    then ok (tt, record db { job_attempts = (attempt_id, a) ∷ db.job_attempts })
    else err constraint

-- INSERT INTO jobs: the primary key.
unfoldable pub insert_job : ℕ → Job → Sql (Unit {0})
insert_job job_id j now db =
    if has_key job_id db.jobs
    then err constraint
    else ok (tt, record db { jobs = (job_id, j) ∷ db.jobs })

-- ON CONFLICT (job_id, type) DO UPDATE SET attempt_id, cdn_url, file_size
abbrev pub upsert : OutputRow → List OutputRow → List OutputRow
upsert o [] = o ∷ []
upsert o (p ∷ rows) =
    if p.job_id == o.job_id && same_type p.type o.type
    then record p { attempt_id = o.attempt_id; cdn_url = o.cdn_url; file_size = o.file_size } ∷ rows
    else p ∷ upsert o rows

abbrev pub insert_output : OutputRow → Sql (Unit {0})
insert_output o now db = ok (tt, record db { job_outputs = upsert o db.job_outputs })

-- now()
abbrev pub time : Sql ℕ
time now db = ok (now, db)

-- column = $n, which is not true of NULL
abbrev pub is_id : ℕ → Option ℕ → Bool
is_id k none = false
is_id k (some i) = i == k

abbrev pub is_null {ℓ} : {A : Type ℓ} → Option A → Bool
is_null none = true
is_null (some _) = false

abbrev pub restrict {ℓ} : {V : Type ℓ} → (V → Bool) → Option V → Option V
restrict p none = none
restrict p (some v) = if p v then some v else none

-- SELECT … FROM jobs WHERE id = $1 AND current_attempt_id = $2
abbrev pub select_current : ℕ → ℕ → Sql (Option Job)
select_current job_id attempt_id now db =
    ok (restrict (λ j. is_id attempt_id j.current_attempt_id) (lookup job_id db.jobs), db)

-- SET status = 'dead', current_attempt_id = NULL
abbrev pub killed : Job → Job
killed j = record j { status = JobStatus.dead; current_attempt_id = none }

-- SET retry_count = retry_count + 1, status = 'queued', current_attempt_id = NULL,
-- queue_entered_at = now()
abbrev pub requeued : ℕ → Job → Job
requeued now j = record j {
  retry_count = j.retry_count + 1;
  status = JobStatus.queued;
  current_attempt_id = none;
  queue_entered_at = now;
}

-- no further condition
abbrev pub always {ℓ} : {V : Type ℓ} → V → Bool
always _ = true

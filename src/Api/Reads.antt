-- ===== src/Api/Reads.antt =====
-- The queries and the handlers of api/internal/server/handlers.go that only read: one job, its
-- outputs, a page of jobs, and the workers.
use transcodex.Base.{
  ℕ, ◌*◌, Bool, true, not, ◌&&◌, ◌||◌, Option, none, some, List, [], ◌∷◌, ◌++◌, if◌then◌else◌,
  filter, take, map,
}
use transcodex.Base.Int.{ℤ, pos, minus, pos_part, ltb_ℤ}
use transcodex.Base.Text.{codes, same_text, atoi}
use transcodex.Db.Table.{lookup}
use transcodex.Db.Schema.{Text, Job, JobStatus, OutputType, OutputRow, WorkerRow, Attempt, Db}
use transcodex.Db.Sql.{Result, ok, err, no_rows}
use transcodex.Db.Statements.{select_job}
use transcodex.Db.Invariant.{attempts_of}
use transcodex.Db.Evolves.{outputs_of}
use transcodex.Db.Postgres.{Postgres, ascending, descending}
use transcodex.Redis.{Redis}
use transcodex.Run.{M, pure, throw, attempt, autocommit, ◌>>=◌}

-- The status codes of the replies, 200 with a body
pub data Response (A : Type 0) : Type 0 where
  success : A → Response A
  bad_request not_found conflict server_error : Response A

-- `statusQueued` and its siblings
abbrev pub status_text : JobStatus → Text
status_text JobStatus.queued = codes "queued"
status_text JobStatus.processing = codes "processing"
status_text JobStatus.completed = codes "completed"
status_text JobStatus.dead = codes "dead"

abbrev pub is_valid_job_status : Text → Bool
is_valid_job_status status =
    same_text status (status_text JobStatus.queued)
    || same_text status (status_text JobStatus.processing)
    || same_text status (status_text JobStatus.completed)
    || same_text status (status_text JobStatus.dead)

unfoldable pub parse_limit : Text → ℕ → ℕ → ℕ
parse_limit [] fallback max = fallback
parse_limit (c ∷ raw) fallback max = elim (atoi (c ∷ raw)) [
  | none ↦ fallback
  | some value ↦
      if not (ltb_ℤ (pos 0) value)
      then fallback
      else if ltb_ℤ (pos max) value
      then max
      else pos_part value
]

-- A row of job_outputs as it is shown. The column id names the row, which here its key does: the pair
-- of UNIQUE (job_id, type).
pub record JobOutput : Type 0 where
  pub id : ℕ × OutputType
  pub job_id : ℕ
  pub type : OutputType
  pub cdn_url : Text
  pub file_size : ℕ
  pub created_at : ℕ

abbrev pub job_output : OutputRow → JobOutput
job_output o = record {
  id = (o.job_id, o.type);
  job_id = o.job_id;
  type = o.type;
  cdn_url = o.cdn_url;
  file_size = o.file_size;
  created_at = o.created_at;
}

pub record JobTimings : Type 0 where
  pub queue_wait_ms : Option ℤ
  pub download_ms : Option ℕ
  pub processing_ms : Option ℕ
  pub upload_ms : Option ℕ
  pub total_ms : Option ℤ
  pub attempt_count : ℕ

-- EXTRACT(EPOCH FROM (b - a)) * 1000
abbrev pub milliseconds : ℕ → ℕ → ℤ
milliseconds a b = minus (b * 1000) (a * 1000)

abbrev pub completed_attempt : Job → Db → Option Attempt
completed_attempt j db = elim j.completed_attempt_id [
  | none ↦ none
  | some a ↦ lookup a db.job_attempts
]

abbrev pub total : Job → Option ℤ
total j = elim j.completed_at [ none ↦ none | some t ↦ some (milliseconds j.created_at t) ]

-- The columns of the completed attempt, NULL where the LEFT JOIN finds none
abbrev pub timings_of : Option Attempt → Option ℤ → ℕ → JobTimings
timings_of none total_ms count = record {
  queue_wait_ms = none;
  download_ms = none;
  processing_ms = none;
  upload_ms = none;
  total_ms = total_ms;
  attempt_count = count;
}
timings_of (some a) total_ms count = record {
  queue_wait_ms = some (milliseconds a.queue_entered_at a.started_at);
  download_ms = a.download_duration_ms;
  processing_ms = a.processing_duration_ms;
  upload_ms = a.upload_duration_ms;
  total_ms = total_ms;
  attempt_count = count;
}

abbrev pub job_timings : ℕ → Job → Db → JobTimings
job_timings i j db = timings_of (completed_attempt j db) (total j) (attempts_of i db.job_attempts)

abbrev pub select_timings : ℕ → Db → Option JobTimings
select_timings i db = elim (lookup i db.jobs) [ none ↦ none | some j ↦ some (job_timings i j db) ]

-- The rows of the LEFT JOIN: the job once for each output, or once without
abbrev pub joined_rows : Job → List OutputRow → List (Job × Option OutputRow)
joined_rows j [] = (j, none) ∷ []
joined_rows j (o ∷ os) = (j, some o) ∷ map (λ p. (j, some p)) os

-- The loop over the rows: the job of the last row, and the outputs of those that have one
abbrev pub scan :
    List (Job × Option OutputRow) → Option Job × List JobOutput → Option Job × List JobOutput
scan [] found = found
scan ((j, none) ∷ rows) (_, outputs) = scan rows (some j, outputs)
scan ((j, some o) ∷ rows) (_, outputs) = scan rows (some j, outputs ++ job_output o ∷ [])

abbrev pub respond : {A : Type 0} → Result A → Response A
respond (ok a) = success a
respond (err no_rows) = not_found
respond (err _) = server_error

abbrev pub reply_outputs : Result (List JobOutput) → Response (List JobOutput)
reply_outputs (ok outputs) = success outputs
reply_outputs (err _) = server_error

abbrev pub reply_rows : {A : Type 0} → Result A → Response A
reply_rows (ok rows) = success rows
reply_rows (err _) = server_error

-- The first clause is the SELECT without a condition on the status.
abbrev pub has_status : Text → ℕ × Job → Bool
has_status [] _ = true
has_status (c ∷ status) (_, j) = same_text (status_text j.status) (c ∷ status)

module _ (pg : Postgres) where
  abbrev pub select_joined : ℕ → Db → List (Job × Option OutputRow)
  select_joined i db = elim (lookup i db.jobs) [
    | none ↦ []
    | some j ↦
        joined_rows j (pg.order_by ascending (λ o. o.created_at) (outputs_of i db.job_outputs))
  ]

  abbrev pub select_page : Text → ℕ → Db → List (ℕ × Job)
  select_page status limit db =
      take limit (pg.order_by descending (λ e. e.1.updated_at) (filter (has_status status) db.jobs))

module _ (r : Redis) where
  -- A SELECT on the pool
  abbrev pub query : {A : Type 0} → (ℕ → Db → A) → M r A
  query f = autocommit (λ now db. ok (f now db, db))

  -- pgx.ErrNoRows where a single row is asked for
  abbrev pub one_row : {A : Type 0} → Option A → M r A
  one_row none = throw no_rows
  one_row (some a) = pure a

module _ (r : Redis) (pg : Postgres) where
  -- `fetchJob`
  unfoldable pub fetch_job : ℕ → M r Job
  fetch_job i = do row ← autocommit (select_job i); one_row r row

  -- `fetchJobWithOutputs`
  unfoldable pub fetch_job_with_outputs : ℕ → M r (Job × List JobOutput × JobTimings)
  fetch_job_with_outputs i = do
    rows ← query r (λ _. select_joined pg i)
    job ← one_row r (scan rows (none, [])).0
    timings ← query r (λ _. select_timings i)
    row ← one_row r timings
    pure (job, (scan rows (none, [])).1, row)

  -- `fetchOutputs`
  unfoldable pub fetch_outputs : ℕ → M r (List JobOutput)
  fetch_outputs i = query r (λ _ db.
      map job_output (pg.order_by ascending (λ o. o.created_at) (outputs_of i db.job_outputs)))

  -- `getJob`
  unfoldable pub get_job : ℕ → M r (Response (Job × List JobOutput × JobTimings))
  get_job i = do res ← attempt (fetch_job_with_outputs i); pure (respond res)

  unfoldable pub outputs_when : ℕ → Result Job → M r (Response (List JobOutput))
  outputs_when i (err no_rows) = pure not_found
  outputs_when i (err _) = pure server_error
  outputs_when i (ok j) = elim j.status [
    | JobStatus.completed ↦ do res ← attempt (fetch_outputs i); pure (reply_outputs res)
    | _ ↦ pure conflict
  ]

  -- `getJobOutputs`
  unfoldable pub get_job_outputs : ℕ → M r (Response (List JobOutput))
  unfolding outputs_when
  get_job_outputs i = do res ← attempt (fetch_job i); outputs_when i res

  -- `getInternalJobs`
  unfoldable pub get_internal_jobs : Text → Text → M r (Response (List (ℕ × Job)))
  get_internal_jobs raw status =
      let limit = parse_limit raw 50 200 in
      if not (same_text status []) && not (is_valid_job_status status)
      then pure bad_request
      else do res ← attempt (query r (λ _. select_page pg status limit)); pure (reply_rows res)

  -- `getWorkers`
  unfoldable pub get_workers : M r (Response (List (ℕ × WorkerRow)))
  get_workers = do
    res ← attempt (query r (λ _ db. pg.order_by descending (λ e. e.1.last_heartbeat) db.workers))
    pure (reply_rows res)

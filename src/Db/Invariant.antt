-- ===== src/Db/Invariant.antt =====
-- What holds of the tables between two transactions.
use transcodex.Base.{
  ℕ, suc, ◌+◌, ◌≤◌, ◌≡◌, refl, ◌∙◌, true, false, Option, none, some, [], ◌∷◌, ◌==◌, arith,
  if◌then◌else◌, All, Bool-cases, inl, inr, ◌&&◌, List,
}
use transcodex.Db.Table.{Table, lookup, modify}
use transcodex.Db.Schema.{
  Job, JobStatus, Attempt, AttemptStatus, WorkerRow, OutputRow, Db, is_running, same_type,
}
use transcodex.Db.Statements.{is_numbered, upsert}

-- The attempts that a job has had.
abbrev pub attempts_of : ℕ → Table Attempt → ℕ
attempts_of job_id [] = 0
attempts_of job_id ((_, a) ∷ t) =
    if a.job_id == job_id then suc (attempts_of job_id t) else attempts_of job_id t

-- A queued job has used one attempt for each retry; any other job is in, or ended by, one more.
abbrev pub tries : JobStatus → ℕ → ℕ
tries JobStatus.queued retries = retries
tries _ retries = retries + 1

abbrev pub Current : Table Attempt → ℕ → AttemptStatus → Option ℕ → Type 0
Current t job_id s o =
    (a : ℕ) × (x : Attempt) × (o ≡ some a)
    × (lookup a t ≡ some x)
    × (x.job_id ≡ job_id)
    × (x.status ≡ s)

abbrev pub StatusOk : Table Attempt → ℕ → JobStatus → Job → Type 0
StatusOk t i JobStatus.queued j = (j.current_attempt_id ≡ none) × (j.completed_attempt_id ≡ none)
StatusOk t i JobStatus.processing j =
    Current t i AttemptStatus.running j.current_attempt_id × (j.completed_attempt_id ≡ none)
StatusOk t i JobStatus.completed j =
    Current t i AttemptStatus.completed j.completed_attempt_id × (j.current_attempt_id ≡ none)
StatusOk t i JobStatus.dead j =
    (j.current_attempt_id ≡ none)
    × (j.completed_attempt_id ≡ none)
    × (j.retry_count ≡ j.max_retries)

-- A job stays within its retries, has an attempt for each try, and points to a running attempt
-- exactly while it is processing, and to a completed one exactly when it is completed.
pub record JobOk (t : Table Attempt) (i : ℕ) (j : Job) : Type 0 where
  pub within : j.retry_count ≤ j.max_retries
  pub tried : attempts_of i t ≡ tries j.status j.retry_count
  pub pointed : StatusOk t i j.status j

-- An attempt belongs to a job, and one that runs is the current attempt of its job.
abbrev pub AttemptOk : Table Job → ℕ → Attempt → Type 0
AttemptOk jobs a x =
    (j : Job) × (lookup x.job_id jobs ≡ some j)
    × (is_running x.status ≡ true
        → (j.status ≡ JobStatus.processing) × (j.current_attempt_id ≡ some a))

-- An output is visible only under a completed job, and names the attempt that completed it.
abbrev pub OutputOk : Table Job → OutputRow → Type 0
OutputOk jobs o =
    (j : Job) × (lookup o.job_id jobs ≡ some j)
    × (j.status ≡ JobStatus.completed)
    × (j.completed_attempt_id ≡ some o.attempt_id)

pub record Inv (db : Db) : Type 0 where
  pub job_ok : (i : ℕ) (j : Job) → lookup i db.jobs ≡ some j → JobOk db.job_attempts i j
  pub attempt_ok : (a : ℕ) (x : Attempt) → lookup a db.job_attempts ≡ some x → AttemptOk db.jobs a x
  pub numbered :
      (i n : ℕ) (j : Job)
      → lookup i db.jobs ≡ some j
      → is_numbered i n db.job_attempts ≡ true
      → n ≤ tries j.status j.retry_count
  pub orphans : (i : ℕ) → lookup i db.jobs ≡ none → attempts_of i db.job_attempts ≡ 0
  pub outputs_ok : All (OutputOk db.jobs) db.job_outputs

module _ (g : Attempt → Attempt) (same_job : (x : Attempt) → (g x).job_id ≡ x.job_id) where
  pub attempts_of-modify :
      (i a : ℕ) (t : Table Attempt) → attempts_of i (modify a g t) ≡ attempts_of i t
  unfolding modify
  attempts_of-modify i a [] = refl
  attempts_of-modify i a ((b, x) ∷ t) = ground (arith, attempts_of-modify i a t, same_job x)

  pub is_numbered-modify :
      ((x : Attempt) → (g x).attempt_number ≡ x.attempt_number)
      → (i n a : ℕ) (t : Table Attempt) → is_numbered i n (modify a g t) ≡ is_numbered i n t
  unfolding modify
  is_numbered-modify h i n a [] = refl
  is_numbered-modify h i n a ((b, x) ∷ t) =
      ground (arith, is_numbered-modify h i n a t, same_job x, h x)

-- What a job knows of the attempts is only the status of its own attempts.
pub JobOk-moved :
    (t u : Table Attempt) (i : ℕ) (j : Job)
    → ((b : ℕ) (x : Attempt)
        → lookup b t ≡ some x
        → x.job_id ≡ i
        → (y : Attempt) × (lookup b u ≡ some y) × (y.job_id ≡ x.job_id) × (y.status ≡ x.status))
    → attempts_of i u ≡ attempts_of i t
    → JobOk t i j
    → JobOk u i j
JobOk-moved t u i j keep count o = record {
  within = o.within;
  tried = omega (arith, o.tried, count);
  pointed = go j.status o.pointed;
}
  where
    moved : (s : AttemptStatus) (c : Option ℕ) → Current t i s c → Current u i s c
    moved s c (a, x, e, l, b, r) =
        let (y, ly, by, sy) = keep a x l b in (a, y, e, ly, by ∙ b, sy ∙ r)

    go : (s : JobStatus) → StatusOk t i s j → StatusOk u i s j
    go JobStatus.queued p = p
    go JobStatus.processing p = (moved _ _ p.0, p.1)
    go JobStatus.completed p = (moved _ _ p.0, p.1)
    go JobStatus.dead p = p

pub JobOk-frame :
    (t u : Table Attempt) (i : ℕ) (j : Job)
    → ((b : ℕ) (x : Attempt) → lookup b t ≡ some x → x.job_id ≡ i → lookup b u ≡ some x)
    → attempts_of i u ≡ attempts_of i t
    → JobOk t i j
    → JobOk u i j
JobOk-frame t u i j keep = JobOk-moved t u i j (λ b x l e. (x, keep b x l e, refl, refl))

pub is_numbered_none :
    (i n : ℕ) (t : Table Attempt) → attempts_of i t ≡ 0 → is_numbered i n t ≡ false
is_numbered_none i n [] h = refl
is_numbered_none i n ((b, x) ∷ t) h = ground (arith, is_numbered_none i n t)

-- The workers and the outputs stand apart from the rest of the invariant.
pub outputs-Inv :
    (db : Db) (rows : List OutputRow)
    → Inv db
    → All (OutputOk db.jobs) rows
    → Inv (record db { job_outputs = rows })
outputs-Inv db rows v h = record {
  job_ok = v.job_ok;
  attempt_ok = v.attempt_ok;
  numbered = v.numbered;
  orphans = v.orphans;
  outputs_ok = h;
}

pub workers-Inv : (db : Db) (rows : Table WorkerRow) → Inv db → Inv (record db { workers = rows })
workers-Inv db rows v = record {
  job_ok = v.job_ok;
  attempt_ok = v.attempt_ok;
  numbered = v.numbered;
  orphans = v.orphans;
  outputs_ok = v.outputs_ok;
}

pub upsert-OutputOk :
    (jobs : Table Job) (o : OutputRow) (rows : List OutputRow)
    → OutputOk jobs o
    → All (OutputOk jobs) rows
    → All (OutputOk jobs) (upsert o rows)
upsert-OutputOk jobs o [] h hs = (h, tt)
upsert-OutputOk jobs o (p ∷ rows) h hs =
    elim (Bool-cases (p.job_id == o.job_id && same_type p.type o.type)) [
      | inl same ↦ let (j, l, s, e) = h in rw same ((j, rw (same_row same) l, s, e), hs.1)
      | inr differs ↦ rw differs (hs.0, upsert-OutputOk jobs o rows h hs.1)
    ]
  where
    same_row : (p.job_id == o.job_id && same_type p.type o.type) ≡ true → p.job_id ≡ o.job_id
    same_row h = ground arith

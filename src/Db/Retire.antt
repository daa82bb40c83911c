-- ===== src/Db/Retire.antt =====
-- The end of the attempt that a job is processing, whatever becomes of the job: the tables after it
-- satisfy the invariant again.
use transcodex.Base.{
  ℕ, ◌+◌, ◌≤◌, ◌≡◌, ◌≢◌, sym, ◌∙◌, ◌⊎◌, inl, inr, true, false, none, some, List, [], ◌∷◌, ◌==◌,
  ==_iff, arith, All, Bool-cases,
}
use transcodex.Db.Table.{
  Table, lookup, modify, lookup-modify, lookup-modify_cases, lookup-modify_self, lookup-modify_ne,
  lookup-modify-none,
}
use transcodex.Db.Schema.{Job, JobStatus, Attempt, OutputRow, Db, is_running}
use transcodex.Db.Statements.{is_numbered}
use transcodex.Db.Invariant.{
  attempts_of, tries, StatusOk, JobOk, AttemptOk, OutputOk, Inv, attempts_of-modify,
  is_numbered-modify, JobOk-frame,
}

-- The end of attempt `a` of job `i`: `f` is applied to the job, `g` to the attempt.
module _ (db : Db) (v : Inv db) (i a : ℕ) (j : Job) (x : Attempt) (f : Job → Job)
    (g : Attempt → Attempt) (found : lookup i db.jobs ≡ some j)
    (current : j.current_attempt_id ≡ some a) (processing : j.status ≡ JobStatus.processing)
    (held : lookup a db.job_attempts ≡ some x) (mine : x.job_id ≡ i)
    (same_job : (y : Attempt) → (g y).job_id ≡ y.job_id)
    (same_number : (y : Attempt) → (g y).attempt_number ≡ y.attempt_number)
    (stopped : is_running (g x).status ≡ false) (within : (f j).retry_count ≤ (f j).max_retries)
    (same_tries : tries (f j).status (f j).retry_count ≡ j.retry_count + 1)
    (pointed : StatusOk (modify a g db.job_attempts) i (f j).status (f j)) where
  abbrev jobs' : Table Job
  jobs' = modify i f db.jobs

  abbrev attempts' : Table Attempt
  attempts' = modify a g db.job_attempts

  other_attempt :
      (k : ℕ)
      → k ≢ i
      → (b : ℕ) (y : Attempt) → lookup b db.job_attempts ≡ some y
      → y.job_id ≡ k
      → lookup b attempts' ≡ some y
  other_attempt k ne b y l e = elim (Bool-cases (a == b)) [
    | inl same ↦ absurd (ne (cc ((==_iff a b).0 same)))
    | inr differs ↦ rw (lookup-modify a b g db.job_attempts, differs) l
  ]

  ended : JobOk attempts' i (f j)
  ended = record {
    within = within;
    tried =
        attempts_of-modify g same_job i a db.job_attempts
        ∙ ground (arith, (v.job_ok i j found).tried);
    pointed = pointed;
  }

  job_cases :
      (k : ℕ) (jk : Job)
      → lookup k jobs' ≡ some jk
      → ((k ≡ i) × (jk ≡ f j)) ⊎ ((i ≢ k) × (lookup k db.jobs ≡ some jk))
  job_cases k jk l = elim (lookup-modify_cases i f db.jobs k jk l) [
    | inl (e, (u, lu, w)) ↦ inl (sym e, cc)
    | inr other ↦ inr other
  ]

  job_ok' : (k : ℕ) (jk : Job) → lookup k jobs' ≡ some jk → JobOk attempts' k jk
  job_ok' k jk l = elim (job_cases k jk l) [
    | inl (e, w) ↦ rw (e, w) ended
    | inr (ne, lk) ↦
        JobOk-frame db.job_attempts attempts' k jk (other_attempt k (λ p. ne (sym p)))
          (attempts_of-modify g same_job k a db.job_attempts) (v.job_ok k jk lk)
  ]

  -- An attempt other than `a` still belongs to its job, and runs only if that job is not `i`.
  elsewhere :
      (b : ℕ) (y : Attempt)
      → a ≢ b
      → AttemptOk db.jobs b y
      → (i ≡ y.job_id) ⊎ (i ≢ y.job_id)
      → AttemptOk jobs' b y
  elsewhere b y ne (k, lk, run) (inl e) =
      (f j, rw (← e) (lookup-modify_self i f db.jobs j found), λ r. absurd (ne (cc ((run r).1))))
  elsewhere b y ne (k, lk, run) (inr d) = (k, lookup-modify_ne i f db.jobs y.job_id d ∙ lk, run)

  attempt_ok' : (b : ℕ) (y : Attempt) → lookup b attempts' ≡ some y → AttemptOk jobs' b y
  attempt_ok' b y l = elim (lookup-modify_cases a g db.job_attempts b y l) [
    | inl (e, (u, lu, w)) ↦
        let p : y ≡ g x = cc in
        let q : y.job_id ≡ i = cc (p, same_job x) in
        (f j, rw q (lookup-modify_self i f db.jobs j found), λ r. absurd (cc (p, r, stopped)))
    | inr (ne, lb) ↦ elsewhere b y ne (v.attempt_ok b y lb) (ground arith)
  ]

  numbered' :
      (k n : ℕ) (jk : Job)
      → lookup k jobs' ≡ some jk
      → is_numbered k n attempts' ≡ true
      → n ≤ tries jk.status jk.retry_count
  numbered' k n jk l h = elim (job_cases k jk l) [
    | inl (e, w) ↦
        rw (w, same_tries)
          (ground (
            arith,
            v.numbered i n j found,
            is_numbered-modify g same_job same_number i n a db.job_attempts,
          ))
    | inr (ne, lk) ↦
        v.numbered k n jk lk
          (sym (is_numbered-modify g same_job same_number k n a db.job_attempts) ∙ h)
  ]

  orphans' : (k : ℕ) → lookup k jobs' ≡ none → attempts_of k attempts' ≡ 0
  orphans' k l =
      attempts_of-modify g same_job k a db.job_attempts
      ∙ v.orphans k (lookup-modify-none i f db.jobs k l)

  outputs_ok' : (os : List OutputRow) → All (OutputOk db.jobs) os → All (OutputOk jobs') os
  outputs_ok' [] h = tt
  outputs_ok' (o ∷ os) ((k, l, s, e), hs) =
      ((k, lookup-modify_ne i f db.jobs o.job_id (λ p. cc) ∙ l, s, e), outputs_ok' os hs)

  pub retire-Inv : Inv (record db { jobs = jobs'; job_attempts = attempts' })
  retire-Inv = record {
    job_ok = job_ok';
    attempt_ok = attempt_ok';
    numbered = numbered';
    orphans = orphans';
    outputs_ok = outputs_ok' db.job_outputs v.outputs_ok;
  }

-- ===== src/Db/Start.antt =====
-- The start of an attempt: a row is added for it, and the queued job that it belongs to becomes the
-- job that it is processing. The tables after it satisfy the invariant again.
use transcodex.Base.{
  ℕ, ◌+◌, ◌≤◌, ◌≡◌, ◌≢◌, sym, ◌∙◌, ◌⊎◌, inl, inr, true, none, some, List, [], ◌∷◌, ◌==◌, ==_iff,
  arith, All, Bool-cases,
}
use transcodex.Db.Table.{
  Table, lookup, modify, lookup-modify_cases, lookup-modify_self, lookup-modify_ne,
  lookup-modify-none,
}
use transcodex.Db.Schema.{Job, JobStatus, Attempt, AttemptStatus, OutputRow, Db}
use transcodex.Db.Statements.{is_numbered}
use transcodex.Db.Invariant.{
  attempts_of, tries, StatusOk, JobOk, AttemptOk, OutputOk, Inv, JobOk-frame,
}

module _ (db : Db) (v : Inv db) (i a : ℕ) (j : Job) (x : Attempt) (f : Job → Job)
    (found : lookup i db.jobs ≡ some j) (queued : j.status ≡ JobStatus.queued)
    (fresh : lookup a db.job_attempts ≡ none) (mine : x.job_id ≡ i)
    (runs : x.status ≡ AttemptStatus.running) (number : x.attempt_number ≡ j.retry_count + 1)
    (starts : (f j).status ≡ JobStatus.processing) (points : (f j).current_attempt_id ≡ some a)
    (same_completed : (f j).completed_attempt_id ≡ j.completed_attempt_id)
    (same_retries : (f j).retry_count ≡ j.retry_count)
    (same_max : (f j).max_retries ≡ j.max_retries) where
  abbrev jobs' : Table Job
  jobs' = modify i f db.jobs

  abbrev attempts' : Table Attempt
  attempts' = (a, x) ∷ db.job_attempts

  -- The new row hides no other.
  older : (b : ℕ) (y : Attempt) → lookup b db.job_attempts ≡ some y → lookup b attempts' ≡ some y
  older b y l = elim (Bool-cases (b == a)) [
    | inl same ↦ absurd (cc ((==_iff b a).0 same))
    | inr differs ↦ rw differs l
  ]

  open_attempt : StatusOk db.job_attempts i j.status j → j.completed_attempt_id ≡ none
  open_attempt = rw queued (λ p. p.1)

  started : JobOk attempts' i (f j)
  started =
      let o = v.job_ok i j found in
      record {
        within = rw (same_retries, same_max) o.within;
        tried = rw (starts, same_retries) (ground (arith, o.tried));
        pointed =
            rw starts
              ((a, x, points, ground arith, mine, runs), same_completed ∙ open_attempt o.pointed);
      }

  job_cases :
      (k : ℕ) (jk : Job)
      → lookup k jobs' ≡ some jk
      → ((k ≡ i) × (jk ≡ f j)) ⊎ ((i ≢ k) × (lookup k db.jobs ≡ some jk))
  job_cases k jk l = elim (lookup-modify_cases i f db.jobs k jk l) [
    | inl (e, (u, lu, w)) ↦ inl (sym e, cc)
    | inr other ↦ inr other
  ]

  job_ok' : (k : ℕ) (jk : Job) → lookup k jobs' ≡ some jk → JobOk attempts' k jk
  job_ok' k jk l = elim (job_cases k jk l) [
    | inl (e, w) ↦ rw (e, w) started
    | inr (ne, lk) ↦
        JobOk-frame db.job_attempts attempts' k jk (λ b y m _. older b y m) (ground arith)
          (v.job_ok k jk lk)
  ]

  elsewhere :
      (b : ℕ) (y : Attempt)
      → AttemptOk db.jobs b y
      → (i ≡ y.job_id) ⊎ (i ≢ y.job_id)
      → AttemptOk jobs' b y
  elsewhere b y (k, lk, run) (inl e) =
      (f j, rw (← e) (lookup-modify_self i f db.jobs j found), λ r. absurd (cc ((run r).0)))
  elsewhere b y (k, lk, run) (inr d) = (k, lookup-modify_ne i f db.jobs y.job_id d ∙ lk, run)

  attempt_ok' : (b : ℕ) (y : Attempt) → lookup b attempts' ≡ some y → AttemptOk jobs' b y
  attempt_ok' b y l = elim (Bool-cases (b == a)) [
    | inl same ↦
        let p : y ≡ x = ground arith in
        let q : b ≡ a = (==_iff b a).0 same in
        (f j, rw (p, mine) (lookup-modify_self i f db.jobs j found), λ r. (starts, rw q points))
    | inr differs ↦ elsewhere b y (v.attempt_ok b y (rw differs at l)) (ground arith)
  ]

  numbered' :
      (k n : ℕ) (jk : Job)
      → lookup k jobs' ≡ some jk
      → is_numbered k n attempts' ≡ true
      → n ≤ tries jk.status jk.retry_count
  numbered' k n jk l h = elim (job_cases k jk l) [
    | inl (e, w) ↦ rw (w, starts, same_retries) (ground (arith, v.numbered i n j found))
    | inr (ne, lk) ↦ ground (arith, v.numbered k n jk lk)
  ]

  orphans' : (k : ℕ) → lookup k jobs' ≡ none → attempts_of k attempts' ≡ 0
  orphans' k l = ground (arith, v.orphans k, lookup-modify-none i f db.jobs k l)

  outputs_ok' : (os : List OutputRow) → All (OutputOk db.jobs) os → All (OutputOk jobs') os
  outputs_ok' [] h = tt
  outputs_ok' (o ∷ os) ((k, l, s, e), hs) =
      ((k, lookup-modify_ne i f db.jobs o.job_id (λ p. cc) ∙ l, s, e), outputs_ok' os hs)

  pub start-Inv : Inv (record db { jobs = jobs'; job_attempts = attempts' })
  start-Inv = record {
    job_ok = job_ok';
    attempt_ok = attempt_ok';
    numbered = numbered';
    orphans = orphans';
    outputs_ok = outputs_ok' db.job_outputs v.outputs_ok;
  }

-- ===== src/Db/Create.antt =====
-- A new queued job, with no attempt yet: the tables with it satisfy the invariant.
use transcodex.Base.{
  ℕ, ◌≤◌, ◌≡◌, inl, inr, true, none, some, List, [], ◌∷◌, ◌==◌, ==_iff, arith, All, Bool-cases,
}
use transcodex.Db.Table.{Table, lookup}
use transcodex.Db.Schema.{Job, JobStatus, Attempt, OutputRow, Db}
use transcodex.Db.Statements.{is_numbered}
use transcodex.Db.Invariant.{attempts_of, tries, JobOk, AttemptOk, OutputOk, Inv, is_numbered_none}

module _ (db : Db) (v : Inv db) (i : ℕ) (j : Job) (fresh : lookup i db.jobs ≡ none)
    (queued : j.status ≡ JobStatus.queued) (untried : j.retry_count ≡ 0)
    (vacant : j.current_attempt_id ≡ none) (uncompleted : j.completed_attempt_id ≡ none) where
  abbrev jobs' : Table Job
  jobs' = (i, j) ∷ db.jobs

  older : (k : ℕ) (jk : Job) → lookup k db.jobs ≡ some jk → lookup k jobs' ≡ some jk
  older k jk l = elim (Bool-cases (k == i)) [
    | inl same ↦ absurd (cc ((==_iff k i).0 same))
    | inr differs ↦ rw differs l
  ]

  created : JobOk db.job_attempts i j
  created = record {
    within = rw untried (omega arith);
    tried = rw (queued, untried) (v.orphans i fresh);
    pointed = rw queued (vacant, uncompleted);
  }

  job_ok' : (k : ℕ) (jk : Job) → lookup k jobs' ≡ some jk → JobOk db.job_attempts k jk
  job_ok' k jk l = elim (Bool-cases (k == i)) [
    | inl same ↦ let p : jk ≡ j = ground arith in rw ((==_iff k i).0 same, p) created
    | inr differs ↦ v.job_ok k jk (rw differs at l)
  ]

  attempt_ok' : (b : ℕ) (y : Attempt) → lookup b db.job_attempts ≡ some y → AttemptOk jobs' b y
  attempt_ok' b y l = let (k, lk, run) = v.attempt_ok b y l in (k, older y.job_id k lk, run)

  numbered' :
      (k n : ℕ) (jk : Job)
      → lookup k jobs' ≡ some jk
      → is_numbered k n db.job_attempts ≡ true
      → n ≤ tries jk.status jk.retry_count
  numbered' k n jk l h = elim (Bool-cases (k == i)) [
    | inl same ↦ ground (arith, v.orphans i fresh, is_numbered_none i n db.job_attempts)
    | inr differs ↦ v.numbered k n jk (rw differs at l) h
  ]

  orphans' : (k : ℕ) → lookup k jobs' ≡ none → attempts_of k db.job_attempts ≡ 0
  orphans' k l = ground (arith, v.orphans k)

  outputs_ok' : (os : List OutputRow) → All (OutputOk db.jobs) os → All (OutputOk jobs') os
  outputs_ok' [] h = tt
  outputs_ok' (o ∷ os) ((k, l, s, e), hs) = ((k, older o.job_id k l, s, e), outputs_ok' os hs)

  pub create-Inv : Inv (record db { jobs = jobs' })
  create-Inv = record {
    job_ok = job_ok';
    attempt_ok = attempt_ok';
    numbered = numbered';
    orphans = orphans';
    outputs_ok = outputs_ok' db.job_outputs v.outputs_ok;
  }

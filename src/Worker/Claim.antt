-- ===== src/Worker/Claim.antt =====
-- `markProcessing` keeps the invariant, and claims every job that waits.
use transcodex.Base.{
  ℕ, ◌+◌, ◌≡◌, refl, inl, inr, true, false, none, some, ◌∷◌, arith, Option-cases, Bool-cases,
}
use transcodex.Db.Table.{lookup, has_key, modify}
use transcodex.Db.Schema.{Job, JobStatus, Attempt, Db, is_queued}
use transcodex.Db.Statements.{touch, accepts, insert_attempt, is_numbered}
use transcodex.Db.Sql.{ok, err, commit, give_up, constraint, ◌>>=◌}
use transcodex.Db.Invariant.{JobOk, Inv}
use transcodex.Db.Evolves.{Keeps, Evolves, Evolves-refl, modify-Evolves}
use transcodex.Db.Effects.{insert_attempt_cases, update_job_hit}
use transcodex.Db.Start.{start-Inv}
use transcodex.Worker.{Worker}
use transcodex.Worker.Transactions.{new_attempt, claimable, claimed, mark_processing}

pub queued-vacant :
    (db : Db) (i : ℕ) (j : Job)
    → JobOk db.job_attempts i j
    → j.status ≡ JobStatus.queued
    → j.current_attempt_id ≡ none
queued-vacant db i j o e = ground (arith, o.pointed)

claimed-Evolves :
    (db : Db) (i a now : ℕ) (j : Job) (x : Attempt)
    → lookup i db.jobs ≡ some j
    → j.status ≡ JobStatus.queued
    → Evolves db (record db {
      jobs = modify i (λ k. touch now (claimed a k)) db.jobs;
      job_attempts = (a, x) ∷ db.job_attempts;
    })
claimed-Evolves db i a now j x e q =
    modify-Evolves db i j (λ k. touch now (claimed a k)) e
      (record {
        stays_completed = λ p. absurd (cc);
        stays_dead = λ p. absurd (cc);
        grows = omega arith;
        same_max = refl;
        same_priority = refl;
        same_input = refl;
      })
      ((a, x) ∷ db.job_attempts) db.workers db.job_outputs (λ k u f p. refl)

-- The tables after a claim.
abbrev pub after_claim : Worker → ℕ → ℕ → ℕ → Job → Db → Db
after_claim w i a now j db = record db {
  jobs = modify i (λ k. touch now (claimed a k)) db.jobs;
  job_attempts = (a, new_attempt w now i j) ∷ db.job_attempts;
}

pub mark_processing_inserted :
    (w : Worker) (i a now : ℕ) (db : Db) (j : Job)
    → Inv db
    → lookup i db.jobs ≡ some j
    → is_queued j.status ≡ true
    → insert_attempt a (new_attempt w now i j) now db
      ≡ ok (tt, record db { job_attempts = (a, new_attempt w now i j) ∷ db.job_attempts })
    → mark_processing w i a now db ≡ ok (commit (some a), after_claim w i a now j db)
unfolding mark_processing
mark_processing_inserted w i a now db j v e q inserted =
    rw (e, ◌>>=◌)
      (rw (q, inserted, ◌>>=◌)
        (rw (
          update_job_hit i claimable (λ _. claimed a) now
              (record db { job_attempts = (a, new_attempt w now i j) ∷ db.job_attempts }) j e
              (ground (arith, queued-vacant db i j (v.job_ok i j e))),
          ◌>>=◌,
        )))

pub mark_processing_refused :
    (w : Worker) (i a now : ℕ) (db : Db) (j : Job)
    → lookup i db.jobs ≡ some j
    → is_queued j.status ≡ true
    → insert_attempt a (new_attempt w now i j) now db ≡ err constraint
    → mark_processing w i a now db ≡ err constraint
unfolding mark_processing
mark_processing_refused w i a now db j e q refused = rw (e, ◌>>=◌) (rw (q, refused, ◌>>=◌))

-- A job that is missing or not queued is not claimed, and nothing changes.
pub mark_processing_other :
    (w : Worker) (i a now : ℕ) (db : Db)
    → accepts (λ j. is_queued j.status) (lookup i db.jobs) ≡ false
    → mark_processing w i a now db ≡ ok (give_up none, db)
unfolding mark_processing
mark_processing_other w i a now db h = elim (Option-cases (lookup i db.jobs)) [
  | inl e ↦ rw (e, ◌>>=◌)
  | inr (j, e) ↦ rw (e, ◌>>=◌, (rw e at h))
]

pub mark_processing-Keeps :
    (w : Worker) (job_id attempt_id now : ℕ) (db : Db)
    → Inv db
    → Keeps db (mark_processing w job_id attempt_id now db)
mark_processing-Keeps w i a now db v = elim (Option-cases (lookup i db.jobs)) [
  | inl e ↦ rw (mark_processing_other w i a now db (rw e), Keeps) (v, Evolves-refl db)
  | inr (j, e) ↦ elim (Bool-cases (is_queued j.status)) [
    | inl q ↦ elim (insert_attempt_cases a (new_attempt w now i j) now db) [
      | inl refused ↦ rw (mark_processing_refused w i a now db j e q refused, Keeps) tt
      | inr (fresh, inserted) ↦
          rw (mark_processing_inserted w i a now db j v e q inserted, Keeps)
            (
              start-Inv db v i a j (new_attempt w now i j) (λ k. touch now (claimed a k)) e
                  (ground arith) fresh refl refl refl refl refl refl refl refl,
              claimed-Evolves db i a now j (new_attempt w now i j) e (ground arith),
            )
    ]
    | inr n ↦ rw (mark_processing_other w i a now db (rw e n), Keeps) (v, Evolves-refl db)
  ]
]

unused-number :
    (db : Db) (i : ℕ) (j : Job)
    → Inv db
    → lookup i db.jobs ≡ some j
    → j.status ≡ JobStatus.queued
    → is_numbered i (j.retry_count + 1) db.job_attempts ≡ false
unused-number db i j v e q = elim (Bool-cases (is_numbered i (j.retry_count + 1) db.job_attempts)) [
  | inl taken ↦ absurd (ground (arith, v.numbered i (j.retry_count + 1) j e taken, q))
  | inr free ↦ free
]

-- On well-formed tables, a registered worker that comes upon a queued job claims it under any identifier that is not in
-- use: the job is then being processed by a new attempt, which runs under a full lease.
pub mark_processing_queued :
    (w : Worker) (i a now : ℕ) (db : Db) (j : Job)
    → Inv db
    → lookup i db.jobs ≡ some j
    → j.status ≡ JobStatus.queued
    → lookup a db.job_attempts ≡ none
    → has_key w.id db.workers ≡ true
    → mark_processing w i a now db ≡ ok (commit (some a), after_claim w i a now j db)
unfolding insert_attempt
mark_processing_queued w i a now db j v e q fresh known =
    mark_processing_inserted w i a now db j v e (ground (arith, q))
      (ground (arith, unused-number db i j v e q))

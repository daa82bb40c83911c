-- ===== src/Db/Retry.antt =====
-- The common end of a failed and of an expired attempt: the job is dead if its retries are used up,
-- and is queued again, with one retry more, if not.
use transcodex.Base.{
  ℕ, ◌≤◌, ◌≡◌, refl, inl, inr, Bool, false, some, leb, if◌then◌else◌, arith, Bool-cases,
}
use transcodex.Db.Table.{lookup, modify}
use transcodex.Db.Schema.{Job, Attempt, Db, is_running}
use transcodex.Db.Statements.{touch, killed, requeued}
use transcodex.Db.Invariant.{Inv}
use transcodex.Db.Held.{Held}
use transcodex.Db.Retire.{retire-Inv}
use transcodex.Db.Evolves.{Evolves, modify-Evolves}

abbrev pub exhausted : Job → Bool
exhausted j = leb j.max_retries j.retry_count

-- The row of the job after the attempt has ended.
abbrev pub retried : Bool → ℕ → Job → Job
retried used_up now j = if used_up then killed j else requeued now j

abbrev pub after_retry : ℕ → ℕ → ℕ → (ℕ → Attempt → Attempt) → Bool → Db → Db
after_retry i a now ending used_up db = record db {
  jobs = modify i (λ k. touch now (retried used_up now k)) db.jobs;
  job_attempts = modify a (ending now) db.job_attempts;
}

pub after_retry-Inv :
    (i a now : ℕ) (ending : ℕ → Attempt → Attempt) (db : Db) (j : Job) (x : Attempt)
    → ((y : Attempt) → (ending now y).job_id ≡ y.job_id)
    → ((y : Attempt) → (ending now y).attempt_number ≡ y.attempt_number)
    → is_running (ending now x).status ≡ false
    → Inv db
    → lookup i db.jobs ≡ some j
    → Held db i a j x
    → Inv (after_retry i a now ending (exhausted j) db)
after_retry-Inv i a now ending db j x same_job same_number stopped v e (p, c, l, m, r, n) =
    elim (Bool-cases (exhausted j)) [
      | inl h ↦ rw h (
          retire-Inv db v i a j x (λ k. touch now (killed k)) (ending now) e c p l m same_job
            same_number stopped within refl (refl, n, ground (arith, within)))
      | inr h ↦ rw h (
          retire-Inv db v i a j x (λ k. touch now (requeued now k)) (ending now) e c p l m same_job
            same_number stopped (ground (arith, within)) refl (refl, n))
    ]
  where
    within : j.retry_count ≤ j.max_retries
    within = (v.job_ok i j e).within

pub after_retry-Evolves :
    (i a now : ℕ) (ending : ℕ → Attempt → Attempt) (used_up : Bool) (db : Db) (j : Job)
    (x : Attempt)
    → lookup i db.jobs ≡ some j
    → Held db i a j x
    → Evolves db (after_retry i a now ending used_up db)
after_retry-Evolves i a now ending used_up db j x e (p, c, l, m, r, n) =
    modify-Evolves db i j (λ k. touch now (retried used_up now k)) e
      (record {
        stays_completed = λ q. absurd (cc);
        stays_dead = λ q. absurd (cc);
        grows = ground arith;
        same_max = ground arith;
        same_priority = ground arith;
        same_input = ground arith;
      })
      (modify a (ending now) db.job_attempts) db.workers db.job_outputs (λ k u f q. refl)

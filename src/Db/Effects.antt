-- ===== src/Db/Effects.antt =====
-- What each statement does, by the case that it meets.
use transcodex.Base.{ℕ, ◌≡◌, ◌⊎◌, Bool, true, false, none, some, ◌∷◌, arith}
use transcodex.Db.Table.{lookup, modify}
use transcodex.Db.Schema.{Job, Attempt, Db}
use transcodex.Db.Sql.{ok, err, constraint}
use transcodex.Db.Statements.{
  insert_attempt, insert_job, update_job, update_attempt, touch, accepts,
}

pub insert_attempt_cases :
    (a : ℕ) (x : Attempt) (now : ℕ) (db : Db)
    → (insert_attempt a x now db ≡ err constraint)
      ⊎ ((lookup a db.job_attempts ≡ none)
          × (insert_attempt a x now db
              ≡ ok (tt, record db { job_attempts = (a, x) ∷ db.job_attempts })))
unfolding insert_attempt
insert_attempt_cases a x now db = ground arith

pub insert_job_cases :
    (i : ℕ) (j : Job) (now : ℕ) (db : Db)
    → (insert_job i j now db ≡ err constraint)
      ⊎ ((lookup i db.jobs ≡ none)
          × (insert_job i j now db ≡ ok (tt, record db { jobs = (i, j) ∷ db.jobs })))
unfolding insert_job
insert_job_cases i j now db = ground arith

pub update_job_hit :
    (i : ℕ) (guard : Job → Bool) (set : ℕ → Job → Job) (now : ℕ) (db : Db) (j : Job)
    → lookup i db.jobs ≡ some j
    → guard j ≡ true
    → update_job i guard set now db
      ≡ ok (1, record db { jobs = modify i (λ k. touch now (set now k)) db.jobs })
unfolding update_job
update_job_hit i guard set now db j e h = rw (e, h)

pub update_job_miss :
    (i : ℕ) (guard : Job → Bool) (set : ℕ → Job → Job) (now : ℕ) (db : Db)
    → accepts guard (lookup i db.jobs) ≡ false
    → update_job i guard set now db ≡ ok (0, db)
unfolding update_job
update_job_miss i guard set now db e = rw e

pub update_attempt_hit :
    (a : ℕ) (guard : Attempt → Bool) (set : ℕ → Attempt → Attempt) (now : ℕ) (db : Db) (x : Attempt)
    → lookup a db.job_attempts ≡ some x
    → guard x ≡ true
    → update_attempt a guard set now db
      ≡ ok (1, record db { job_attempts = modify a (set now) db.job_attempts })
unfolding update_attempt
update_attempt_hit a guard set now db x e h = rw (e, h)

pub update_attempt_miss :
    (a : ℕ) (guard : Attempt → Bool) (set : ℕ → Attempt → Attempt) (now : ℕ) (db : Db)
    → accepts guard (lookup a db.job_attempts) ≡ false
    → update_attempt a guard set now db ≡ ok (0, db)
unfolding update_attempt
update_attempt_miss a guard set now db e = rw e

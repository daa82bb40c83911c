-- ===== src/Reaper/Invariant.antt =====
-- The transaction of `requeueJob` keeps the invariant; what it does on each branch.
use transcodex.Base.{
  ℕ, ◌≡◌, refl, inl, inr, Bool, true, false, not, ◌||◌, ◌&&◌, Option, none, some, if◌then◌else◌,
  arith, Option-cases, Bool-cases,
}
use transcodex.Db.Table.{lookup, modify}
use transcodex.Db.Schema.{Job, Attempt, FailureCategory, Db, is_running, is_processing}
use transcodex.Db.Sql.{ok, commit, give_up, ◌>>=◌}
use transcodex.Db.Statements.{accepts, always, killed, requeued}
use transcodex.Db.Invariant.{Inv}
use transcodex.Db.Evolves.{Keeps, Evolves-refl}
use transcodex.Db.Held.{Held, processing-Held}
use transcodex.Db.Retry.{exhausted, after_retry, after_retry-Inv, after_retry-Evolves}
use transcodex.Db.Effects.{update_job_hit, update_attempt_hit}
use transcodex.Reaper.Transactions.{attempt_expired, is_other, requeue_job}

-- The attempt that holds a job ends as expired, unless another attempt was named; the job is dead if
-- its retries are used up, and is queued with one retry more if not, and only then is a priority
-- handed on to queue it in Redis.
pub requeue_job_held :
    (i a now : ℕ) (attempt_id : Option ℕ) (reason : FailureCategory) (db : Db) (j : Job)
    (x : Attempt)
    → lookup i db.jobs ≡ some j
    → Held db i a j x
    → is_other attempt_id a ≡ false
    → requeue_job i attempt_id reason now db
      ≡ ok (
        commit (if exhausted j then none else some j.priority),
        after_retry i a now (attempt_expired reason) (exhausted j) db,
      )
unfolding requeue_job
requeue_job_held i a now attempt_id reason db j x e (p, c, l, m, r, n) o =
    rw (e, ◌>>=◌)
      (rw (c, skips, ◌>>=◌)
        (rw
          (
            update_attempt_hit a (λ y. is_running y.status) (attempt_expired reason) now db x l
                (ground arith),
            ◌>>=◌,
          )
          (elim (Bool-cases (exhausted j)) [
            | inl h ↦ rw (h, update_job_hit i always (λ _. killed) now ended j e refl, ◌>>=◌)
            | inr h ↦ rw (h, update_job_hit i always requeued now ended j e refl, ◌>>=◌)
          ])))
  where
    skips : (not (is_processing j.status) || is_other attempt_id a) ≡ false
    skips = ground arith

    ended : Db
    ended = record db { job_attempts = modify a (attempt_expired reason now) db.job_attempts }

-- Is the job being processed, by the attempt that was named, if one was?
abbrev pub is_current : Option ℕ → Job → Bool
is_current attempt_id j =
    is_processing j.status && accepts (λ a. not (is_other attempt_id a)) j.current_attempt_id

-- A job that is not being processed, or by another attempt than the one named, is left alone.
pub requeue_job_other :
    (i now : ℕ) (attempt_id : Option ℕ) (reason : FailureCategory) (db : Db)
    → accepts (is_current attempt_id) (lookup i db.jobs) ≡ false
    → requeue_job i attempt_id reason now db ≡ ok (give_up none, db)
unfolding requeue_job
requeue_job_other i now attempt_id reason db h = elim (Option-cases (lookup i db.jobs)) [
  | inl e ↦ rw (e, ◌>>=◌)
  | inr (j, e) ↦ elim (Option-cases j.current_attempt_id) [
    | inl c ↦ rw (e, c, ◌>>=◌)
    | inr (a, c) ↦ rw (e, c, skips j a e c, ◌>>=◌)
  ]
]
  where
    skips :
        (j : Job) (a : ℕ)
        → lookup i db.jobs ≡ some j
        → j.current_attempt_id ≡ some a
        → (not (is_processing j.status) || is_other attempt_id a) ≡ true
    skips j a e c = ground arith

pub requeue_job-Keeps :
    (i now : ℕ) (attempt_id : Option ℕ) (reason : FailureCategory) (db : Db)
    → Inv db
    → Keeps db (requeue_job i attempt_id reason now db)
requeue_job-Keeps i now attempt_id reason db v = elim (Option-cases (lookup i db.jobs)) [
  | inl e ↦ rw (requeue_job_other i now attempt_id reason db (rw e), Keeps) (v, Evolves-refl db)
  | inr (j, e) ↦ elim (Bool-cases (is_current attempt_id j)) [
    | inl h ↦
        let (a, x, held) = processing-Held db i j (v.job_ok i j e) (ground arith) in
        rw (requeue_job_held i a now attempt_id reason db j x e held (ground arith), Keeps)
          (
            after_retry-Inv i a now (attempt_expired reason) db j x (λ y. refl) (λ y. refl) refl v e
                held,
            after_retry-Evolves i a now (attempt_expired reason) (exhausted j) db j x e held,
          )
    | inr n ↦ rw (requeue_job_other i now attempt_id reason db (rw e n), Keeps) (v, Evolves-refl db)
  ]
]

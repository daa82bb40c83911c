-- ===== src/Worker/Fail.antt =====
-- The transaction of `handleFailure` keeps the invariant, and decides between retry and death.
use transcodex.Base.{
  ℕ, ◌≡◌, refl, inl, inr, true, false, none, some, if◌then◌else◌, arith, Option-cases, Bool-cases,
}
use transcodex.Db.Table.{lookup, modify}
use transcodex.Db.Schema.{Text, Job, Attempt, Db, is_running, is_processing}
use transcodex.Db.Sql.{ok, commit, give_up, ◌>>=◌}
use transcodex.Db.Statements.{accepts, is_id, restrict, always, killed, requeued}
use transcodex.Db.Invariant.{Inv}
use transcodex.Db.Evolves.{Keeps, Evolves-refl}
use transcodex.Db.Held.{Held, holds-Held}
use transcodex.Db.Retry.{exhausted, after_retry, after_retry-Inv, after_retry-Evolves}
use transcodex.Db.Effects.{update_job_hit, update_attempt_hit}
use transcodex.Worker.Transactions.{attempt_failed, fail_attempt, holds}

-- The attempt that holds a job ends as failed; the job is dead if its retries are used up, and is
-- queued with one retry more if not, and only then is a priority handed on to queue it in Redis.
pub fail_attempt_held :
    (i a now : ℕ) (cause : Text) (db : Db) (j : Job) (x : Attempt)
    → lookup i db.jobs ≡ some j
    → Held db i a j x
    → fail_attempt i a cause now db
      ≡ ok (
        commit (if exhausted j then none else some j.priority),
        after_retry i a now (attempt_failed cause) (exhausted j) db,
      )
unfolding fail_attempt
fail_attempt_held i a now cause db j x e (p, c, l, m, r, n) =
    rw (selected, active, ◌>>=◌)
      (rw
        (
          update_attempt_hit a (λ y. is_running y.status) (attempt_failed cause) now db x l
              (ground arith),
          ◌>>=◌,
        )
        (elim (Bool-cases (exhausted j)) [
          | inl h ↦ rw (h, update_job_hit i always (λ _. killed) now ended j e refl, ◌>>=◌)
          | inr h ↦ rw (h, update_job_hit i always requeued now ended j e refl, ◌>>=◌)
        ]))
  where
    selected : restrict (λ k. is_id a k.current_attempt_id) (lookup i db.jobs) ≡ some j
    selected = ground arith

    active : is_processing j.status ≡ true
    active = ground arith

    ended : Db
    ended = record db { job_attempts = modify a (attempt_failed cause now) db.job_attempts }

-- An attempt that no longer holds its job changes nothing.
pub fail_attempt_stale :
    (i a now : ℕ) (cause : Text) (db : Db)
    → accepts (holds a) (lookup i db.jobs) ≡ false
    → fail_attempt i a cause now db ≡ ok (give_up none, db)
unfolding fail_attempt
fail_attempt_stale i a now cause db h = elim (Option-cases (lookup i db.jobs)) [
  | inl e ↦ rw (e, ◌>>=◌)
  | inr (j, e) ↦ elim (Bool-cases (is_id a j.current_attempt_id)) [
    | inl same ↦ rw (e, same, ◌>>=◌) (rw (idle j e same))
    | inr other ↦ rw (e, other, ◌>>=◌)
  ]
]
  where
    idle :
        (j : Job)
        → lookup i db.jobs ≡ some j
        → is_id a j.current_attempt_id ≡ true
        → is_processing j.status ≡ false
    idle j e same = ground arith

pub fail_attempt-Keeps :
    (i a now : ℕ) (cause : Text) (db : Db) → Inv db → Keeps db (fail_attempt i a cause now db)
fail_attempt-Keeps i a now cause db v = elim (Option-cases (lookup i db.jobs)) [
  | inl e ↦ rw (fail_attempt_stale i a now cause db (rw e), Keeps) (v, Evolves-refl db)
  | inr (j, e) ↦ elim (Bool-cases (holds a j)) [
    | inl h ↦
        let (x, held) = holds-Held db i a j (v.job_ok i j e) (ground arith) (ground arith) in
        rw (fail_attempt_held i a now cause db j x e held, Keeps)
          (
            after_retry-Inv i a now (attempt_failed cause) db j x (λ y. refl) (λ y. refl) refl v e
                held,
            after_retry-Evolves i a now (attempt_failed cause) (exhausted j) db j x e held,
          )
    | inr n ↦ rw (fail_attempt_stale i a now cause db (rw e n), Keeps) (v, Evolves-refl db)
  ]
]

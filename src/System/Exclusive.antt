-- ===== src/System/Exclusive.antt =====
-- Only one attempt acts for a job: a job that is claimed cannot be claimed again, an attempt that
-- the reaper has ended cannot complete its job, and a job is completed at most once.
use transcodex.Base.{
  ℕ, ◌≡◌, ◌⊎◌, ◌∙◌, ap, ◌==◌, inl, inr, false, none, some, arith, Option-cases, Bool-cases, Option,
  List,
}
use transcodex.Base.Int.{ℤ}
use transcodex.Db.Table.{lookup, modify, lookup-modify_self}
use transcodex.Db.Schema.{Text, Db, Job, Attempt, FailureCategory, is_queued}
use transcodex.Db.Sql.{ok, err, commit, give_up, stale_attempt}
use transcodex.Db.Statements.{touch, accepts}
use transcodex.Db.Invariant.{Inv}
use transcodex.Db.Held.{processing-Held, holds-Held}
use transcodex.Db.Retry.{exhausted, retried, after_retry}
use transcodex.Db.Evolves.{Keeps}
use transcodex.Db.Effects.{insert_attempt_cases}
use transcodex.Worker.{Worker, Output}
use transcodex.Worker.Transactions.{
  mark_processing, complete_job, fail_attempt, holds, new_attempt, claimed, completed,
}
use transcodex.Worker.Complete.{complete_job_held, complete_job_stale}
use transcodex.Worker.Claim.{
  mark_processing_inserted, mark_processing_refused, mark_processing_other,
}
use transcodex.Worker.Fail.{fail_attempt_stale}
use transcodex.Reaper.Transactions.{requeue_job, attempt_expired}
use transcodex.Reaper.Invariant.{requeue_job_held, requeue_job_other, requeue_job-Keeps, is_current}

claimed_jobs :
    (w : Worker) (i a c now : ℕ) (db db' : Db)
    → Inv db
    → mark_processing w i a now db ≡ ok (commit (some c), db')
    → (j : Job) × (lookup i db.jobs ≡ some j)
      × (lookup a db.job_attempts ≡ none)
      × (db'.jobs ≡ modify i (λ k. touch now (claimed a k)) db.jobs)
claimed_jobs w i a c now db db' v done = elim (Option-cases (lookup i db.jobs)) [
  | inl e ↦ absurd (cc (mark_processing_other w i a now db (rw e)))
  | inr (j, e) ↦ elim (Bool-cases (is_queued j.status)) [
    | inl q ↦ elim (insert_attempt_cases a (new_attempt w now i j) now db) [
      | inl refused ↦ absurd (cc (mark_processing_refused w i a now db j e q refused))
      | inr (fresh, inserted) ↦
          (j, e, fresh, cc (mark_processing_inserted w i a now db j v e q inserted))
    ]
    | inr n ↦ absurd (cc (mark_processing_other w i a now db (rw e n)))
  ]
]

-- On well-formed tables, once a claim of a job has been committed, a further claim of it commits
-- nothing and changes nothing, whoever makes it.
pub claim_once :
    (w x : Worker) (i a b c now later : ℕ) (db db' : Db)
    → Inv db
    → mark_processing w i a now db ≡ ok (commit (some c), db')
    → mark_processing x i b later db' ≡ ok (give_up none, db')
claim_once w x i a b c now later db db' v done =
    let (j, e, fresh, jobs) = claimed_jobs w i a c now db db' v done in
    mark_processing_other x i b later db' (rw (jobs, lookup-modify_self i _ db.jobs j e))

completed_jobs :
    (i a now : ℕ) (outputs : List Output) (db db' : Db)
    → Inv db
    → complete_job i a outputs now db ≡ ok (commit tt, db')
    → (j : Job) × (lookup i db.jobs ≡ some j)
      × (db'.jobs ≡ modify i (λ k. touch now (completed a now k)) db.jobs)
completed_jobs i a now outputs db db' v done = elim (Option-cases (lookup i db.jobs)) [
  | inl e ↦ absurd (cc (complete_job_stale i a now outputs db (rw e)))
  | inr (j, e) ↦ elim (Bool-cases (holds a j)) [
    | inl h ↦
        let (x, held) = holds-Held db i a j (v.job_ok i j e) (ground arith) (ground arith) in
        (j, e, cc (complete_job_held i a now outputs db j x e held))
    | inr n ↦ absurd (cc (complete_job_stale i a now outputs db (rw e n)))
  ]
]

-- On well-formed tables, once a completion of a job has been committed, a further completion of it,
-- by the same attempt or by another, is refused as stale.
pub complete_once :
    (i a b now later : ℕ) (outputs others : List Output) (db db' : Db)
    → Inv db
    → complete_job i a outputs now db ≡ ok (commit tt, db')
    → complete_job i b others later db' ≡ err stale_attempt
complete_once i a b now later outputs others db db' v done =
    let (j, e, jobs) = completed_jobs i a now outputs db db' v done in
    complete_job_stale i b later others db' (rw (jobs, lookup-modify_self i _ db.jobs j e))

-- The job is free, and the attempt is on record.
abbrev Released : ℕ → ℕ → Db → Type 0
Released i a db =
    (k : Job) × (lookup i db.jobs ≡ some k)
    × (k.current_attempt_id ≡ none)
    × ((y : Attempt) × (lookup a db.job_attempts ≡ some y))

requeue_job-Released :
    (i a now : ℕ) (attempt_id : Option ℕ) (reason : FailureCategory) (p : Option ℤ) (db db' : Db)
    (j : Job)
    → Inv db
    → lookup i db.jobs ≡ some j
    → j.current_attempt_id ≡ some a
    → requeue_job i attempt_id reason now db ≡ ok (commit p, db')
    → Released i a db'
requeue_job-Released i a now attempt_id reason p db db' j v e own done =
    elim (Bool-cases (is_current attempt_id j)) [
      | inl h ↦
          let (b, x, held) = processing-Held db i j (v.job_ok i j e) (ground arith) in
          let (s, c, l, m, r, n) = held in
          let same : b ≡ a = cc in
          let ran = requeue_job_held i b now attempt_id reason db j x e held (ground arith) in
          let after = after_retry i b now (attempt_expired reason) (exhausted j) db in
          let left : db' ≡ after = cc in
          let k : Job = touch now (retried (exhausted j) now j) in
          (
            k,
            ap (λ u. lookup i u.jobs) left
                ∙ lookup-modify_self i (λ k. touch now (retried (exhausted j) now k)) db.jobs j e,
            ground arith,
            (
              attempt_expired reason now x,
              ap (λ u. lookup a u.job_attempts) left
                  ∙ rw (← same)
                      (lookup-modify_self b (attempt_expired reason now) db.job_attempts x l),
            ),
          )
      | inr n ↦ absurd (cc (requeue_job_other i now attempt_id reason db (rw e n)))
    ]

-- The tables, or those that a further claim of the job leaves of them
abbrev pub Reclaimed : ℕ → Db → Db → Type 0
Reclaimed i db db' =
    (db' ≡ db)
    ⊎ ((w : Worker) × (b : ℕ) × (c : ℕ) × (now : ℕ) × (mark_processing w i b now db
          ≡ ok (commit (some c), db')))

Reclaimed-stale :
    (i a : ℕ) (db db' : Db)
    → Inv db
    → Released i a db
    → Reclaimed i db db'
    → accepts (holds a) (lookup i db'.jobs) ≡ false
Reclaimed-stale i a db db' v (k, e, free, (y, l)) (inl same) = rw (same, e) (ground arith)
Reclaimed-stale i a db db' v (k, e, free, (y, l)) (inr (w, b, c, now, done)) =
    let (j, e', fresh, jobs) = claimed_jobs w i b c now db db' v done in
    let other : (b == a) ≡ false = ground (arith, fresh, l) in
    rw (jobs, lookup-modify_self i _ db.jobs j e') (ground (arith, other))

-- On well-formed tables, once the reaper has taken a job from its current attempt, whether it named
-- the attempt, as for an expired lease, or only the job, as for a dead worker, the attempt cannot
-- complete the job, and a failure of it that is reported changes nothing: neither on the tables that
-- the reaper left, nor on those after a further claim of the job, by whomever.
pub expired-fenced :
    (i a now later : ℕ) (attempt_id : Option ℕ) (reason : FailureCategory) (p : Option ℤ)
    (outputs : List Output) (cause : Text) (db db' db'' : Db) (j : Job)
    → Inv db
    → lookup i db.jobs ≡ some j
    → j.current_attempt_id ≡ some a
    → requeue_job i attempt_id reason now db ≡ ok (commit p, db')
    → Reclaimed i db' db''
    → (complete_job i a outputs later db'' ≡ err stale_attempt)
      × (fail_attempt i a cause later db'' ≡ ok (give_up none, db''))
expired-fenced i a now later attempt_id reason p outputs cause db db' db'' j v e own done again =
    let released = requeue_job-Released i a now attempt_id reason p db db' j v e own done in
    let kept : Keeps db (ok (commit p, db')) =
      rw done at (requeue_job-Keeps i now attempt_id reason db v) in
    let stale = Reclaimed-stale i a db' db'' kept.0 released again in
    (complete_job_stale i a later outputs db'' stale, fail_attempt_stale i a later cause db'' stale)

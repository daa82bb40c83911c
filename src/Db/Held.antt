-- ===== src/Db/Held.antt =====
-- The attempt that a processing job points to.
use transcodex.Base.{ℕ, ◌≡◌, subst, true, some, arith}
use transcodex.Db.Table.{lookup}
use transcodex.Db.Schema.{Job, JobStatus, Attempt, AttemptStatus, Db, is_processing}
use transcodex.Db.Statements.{is_id}
use transcodex.Db.Invariant.{StatusOk, JobOk}
use transcodex.Base.{none}

-- Job `i`, in row `j`, is being processed by attempt `a`, in row `x`.
abbrev pub Held : Db → ℕ → ℕ → Job → Attempt → Type 0
Held db i a j x =
    (j.status ≡ JobStatus.processing)
    × (j.current_attempt_id ≡ some a)
    × (lookup a db.job_attempts ≡ some x)
    × (x.job_id ≡ i)
    × (x.status ≡ AttemptStatus.running)
    × (j.completed_attempt_id ≡ none)

pub processing-Held :
    (db : Db) (i : ℕ) (j : Job)
    → JobOk db.job_attempts i j
    → is_processing j.status ≡ true
    → (a : ℕ) × (x : Attempt) × Held db i a j x
processing-Held db i j o h =
    let p : j.status ≡ JobStatus.processing = ground arith in
    let ((a, x, e, l, m, r), c) = subst (λ s. StatusOk db.job_attempts i s j) p o.pointed in
    (a, x, (p, e, l, m, r, c))

pub holds-Held :
    (db : Db) (i a : ℕ) (j : Job)
    → JobOk db.job_attempts i j
    → is_processing j.status ≡ true
    → is_id a j.current_attempt_id ≡ true
    → (x : Attempt) × Held db i a j x
holds-Held db i a j o h d =
    let (b, x, (p, e, l, m, r, c)) = processing-Held db i j o h in
    let same : b ≡ a = ground arith in (x, (p, cc, cc, m, r, c))

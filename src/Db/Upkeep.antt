-- ===== src/Db/Upkeep.antt =====
-- A change of an attempt that leaves its job, its number and its status alone, such as a renewed
-- lease, a phase or a duration, keeps the invariant; so does any change of the workers.
use transcodex.Base.{ℕ, ◌≡◌, refl, sym, ◌∙◌, inl, inr, Bool, some, ◌==◌, Bool-cases}
use transcodex.Db.Table.{Table, lookup, modify, lookup-modify, lookup-modify_cases, has_key}
use transcodex.Db.Schema.{Attempt, WorkerRow, Db}
use transcodex.Db.Statements.{update_attempt, update_worker, accepts}
use transcodex.Db.Invariant.{
  AttemptOk, Inv, attempts_of-modify, is_numbered-modify, JobOk-moved, workers-Inv,
}
use transcodex.Db.Evolves.{Keeps, Evolves-refl, attempts-Evolves, workers-Evolves}

module _ (db : Db) (v : Inv db) (a : ℕ) (g : Attempt → Attempt)
    (same_job : (y : Attempt) → (g y).job_id ≡ y.job_id)
    (same_number : (y : Attempt) → (g y).attempt_number ≡ y.attempt_number)
    (same_status : (y : Attempt) → (g y).status ≡ y.status) where
  abbrev attempts' : Table Attempt
  attempts' = modify a g db.job_attempts

  moved :
      (b : ℕ) (x : Attempt)
      → lookup b db.job_attempts ≡ some x
      → (y : Attempt) × (lookup b attempts' ≡ some y)
        × (y.job_id ≡ x.job_id)
        × (y.status ≡ x.status)
  moved b x l = elim (Bool-cases (a == b)) [
    | inl same ↦ (g x, rw (lookup-modify a b g db.job_attempts, same, l), same_job x, same_status x)
    | inr differs ↦ (x, rw (lookup-modify a b g db.job_attempts, differs) l, refl, refl)
  ]

  attempt_ok' : (b : ℕ) (y : Attempt) → lookup b attempts' ≡ some y → AttemptOk db.jobs b y
  attempt_ok' b y l = elim (lookup-modify_cases a g db.job_attempts b y l) [
    | inl (e, (u, lu, w)) ↦
        let (j, lj, run) = v.attempt_ok a u lu in
        (j, rw (w, same_job u) lj, λ r. rw (sym e) (run (cc (w, same_status u, r))))
    | inr (ne, lb) ↦ v.attempt_ok b y lb
  ]

  pub attempt_change-Inv : Inv (record db { job_attempts = attempts' })
  attempt_change-Inv = record {
    job_ok = λ i j l.
        JobOk-moved db.job_attempts attempts' i j (λ b x m _. moved b x m)
          (attempts_of-modify g same_job i a db.job_attempts) (v.job_ok i j l);
    attempt_ok = attempt_ok';
    numbered = λ i n j l h.
        v.numbered i n j l
          (sym (is_numbered-modify g same_job same_number i n a db.job_attempts) ∙ h);
    orphans = λ i l. attempts_of-modify g same_job i a db.job_attempts ∙ v.orphans i l;
    outputs_ok = v.outputs_ok;
  }

pub update_attempt-Keeps :
    (a : ℕ) (guard : Attempt → Bool) (set : ℕ → Attempt → Attempt) (now : ℕ) (db : Db)
    → ((y : Attempt) → (set now y).job_id ≡ y.job_id)
    → ((y : Attempt) → (set now y).attempt_number ≡ y.attempt_number)
    → ((y : Attempt) → (set now y).status ≡ y.status)
    → Inv db
    → Keeps db (update_attempt a guard set now db)
unfolding update_attempt
update_attempt-Keeps a guard set now db sj sn ss v =
    elim (Bool-cases (accepts guard (lookup a db.job_attempts))) [
      | inl h ↦ rw (h, Keeps) (attempt_change-Inv db v a (set now) sj sn ss, attempts-Evolves db _)
      | inr h ↦ rw (h, Keeps) (v, Evolves-refl db)
    ]

pub update_worker-Keeps :
    (k : ℕ) (set : ℕ → WorkerRow → WorkerRow) (now : ℕ) (db : Db)
    → Inv db
    → Keeps db (update_worker k set now db)
unfolding update_worker
update_worker-Keeps k set now db v = elim (Bool-cases (has_key k db.workers)) [
  | inl h ↦ rw (h, Keeps) (workers-Inv db _ v, workers-Evolves db _)
  | inr h ↦ rw (h, Keeps) (v, Evolves-refl db)
]

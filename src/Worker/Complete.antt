-- ===== src/Worker/Complete.antt =====
-- `completeJob` keeps the invariant.
use transcodex.Base.{
  ℕ, ◌≡◌, ◌≢◌, refl, ◌∙◌, inl, inr, false, some, List, [], ◌∷◌, arith, All, Option-cases,
  Bool-cases,
}
use transcodex.Db.Table.{Table, lookup, modify, lookup-modify_self}
use transcodex.Db.Schema.{Job, JobStatus, Attempt, OutputRow, Db, is_running}
use transcodex.Db.Sql.{ok, err, commit, stale_attempt, ◌>>=◌}
use transcodex.Db.Statements.{touch, upsert, accepts}
use transcodex.Db.Invariant.{Inv, OutputOk, upsert-OutputOk, outputs-Inv}
use transcodex.Db.Held.{Held, holds-Held}
use transcodex.Db.Evolves.{Keeps, Evolves, outputs_of, outputs_of-upsert, modify-Evolves}
use transcodex.Db.Effects.{update_job_hit, update_job_miss, update_attempt_hit}
use transcodex.Db.Retire.{retire-Inv}
use transcodex.Worker.{Output}
use transcodex.Worker.Transactions.{
  insert_outputs, holds, output_row, completed, attempt_completed, complete_job,
}

-- The rows that the loop of `completeJob` leaves.
abbrev pub published : ℕ → ℕ → ℕ → List Output → List OutputRow → List OutputRow
published i a now [] rows = rows
published i a now (o ∷ os) rows = published i a now os (upsert (output_row i a now o) rows)

pub insert_outputs-published :
    (i a now : ℕ) (os : List Output) (db : Db)
    → insert_outputs i a os now db
      ≡ ok (tt, record db { job_outputs = published i a now os db.job_outputs })
unfolding insert_outputs
insert_outputs-published i a now [] db = refl
insert_outputs-published i a now (o ∷ os) db = insert_outputs-published i a now os _

published-OutputOk :
    (i a now : ℕ) (jobs : Table Job) (j : Job)
    → lookup i jobs ≡ some j
    → j.status ≡ JobStatus.completed
    → j.completed_attempt_id ≡ some a
    → (os : List Output) (rows : List OutputRow) → All (OutputOk jobs) rows
    → All (OutputOk jobs) (published i a now os rows)
published-OutputOk i a now jobs j l s e [] rows h = h
published-OutputOk i a now jobs j l s e (o ∷ os) rows h =
    published-OutputOk i a now jobs j l s e os _ (upsert-OutputOk jobs _ rows (j, l, s, e) h)

-- The tables after attempt `a` has completed job `i`.
abbrev pub after_completion : ℕ → ℕ → ℕ → List Output → Db → Db
after_completion i a now outputs db = record db {
  jobs = modify i (λ k. touch now (completed a now k)) db.jobs;
  job_attempts = modify a (attempt_completed now) db.job_attempts;
  job_outputs = published i a now outputs db.job_outputs;
}

pub after_completion-Inv :
    (i a now : ℕ) (outputs : List Output) (db : Db) (j : Job) (x : Attempt)
    → Inv db
    → lookup i db.jobs ≡ some j
    → Held db i a j x
    → Inv (after_completion i a now outputs db)
after_completion-Inv i a now outputs db j x v e (p, c, l, m, r, n) = outputs-Inv done _ retired (
    published-OutputOk i a now done.jobs (touch now (completed a now j))
      (lookup-modify_self i _ db.jobs j e) refl refl outputs db.job_outputs retired.outputs_ok)
  where
    done : Db
    done = record db {
      jobs = modify i (λ k. touch now (completed a now k)) db.jobs;
      job_attempts = modify a (attempt_completed now) db.job_attempts;
    }

    retired : Inv done
    retired =
        retire-Inv db v i a j x (λ k. touch now (completed a now k)) (attempt_completed now) e c p l
          m (λ y. refl) (λ y. refl) refl (v.job_ok i j e).within refl
          (
            (a, attempt_completed now x, refl, lookup-modify_self a _ db.job_attempts x l, m, refl),
            refl,
          )

pub published-elsewhere :
    (i a now k : ℕ) (os : List Output) (rows : List OutputRow)
    → i ≢ k
    → outputs_of k (published i a now os rows) ≡ outputs_of k rows
published-elsewhere i a now k [] rows ne = refl
published-elsewhere i a now k (o ∷ os) rows ne =
    published-elsewhere i a now k os _ ne ∙ outputs_of-upsert k (output_row i a now o) rows ne

after_completion-Evolves :
    (i a now : ℕ) (outputs : List Output) (db : Db) (j : Job) (x : Attempt)
    → lookup i db.jobs ≡ some j
    → Held db i a j x
    → Evolves db (after_completion i a now outputs db)
after_completion-Evolves i a now outputs db j x e (p, c, l, m, r, n) =
    modify-Evolves db i j (λ k. touch now (completed a now k)) e
      (record {
        stays_completed = λ q. absurd (cc);
        stays_dead = λ q. absurd (cc);
        grows = omega arith;
        same_max = refl;
        same_priority = refl;
        same_input = refl;
      })
      (modify a (attempt_completed now) db.job_attempts) db.workers
      (published i a now outputs db.job_outputs)
      (λ k u l q. published-elsewhere i a now k outputs db.job_outputs (λ same. cc))

-- The attempt that holds a job, running and being the job's current one, completes it: the job and
-- the attempt are completed and the outputs are inserted or overwritten, in one transaction.
pub complete_job_held :
    (i a now : ℕ) (outputs : List Output) (db : Db) (j : Job) (x : Attempt)
    → lookup i db.jobs ≡ some j
    → Held db i a j x
    → complete_job i a outputs now db ≡ ok (commit tt, after_completion i a now outputs db)
unfolding complete_job
complete_job_held i a now outputs db j x e (p, c, l, m, r, n) =
    rw (update_job_hit i (holds a) (completed a) now db j e (ground arith), ◌>>=◌)
      (rw (insert_outputs-published i a now outputs _, ◌>>=◌)
        (rw (
          update_attempt_hit a (λ y. is_running y.status) attempt_completed now written x l
              (ground arith),
          ◌>>=◌,
        )))
  where
    written : Db
    written = record db {
      jobs = modify i (λ k. touch now (completed a now k)) db.jobs;
      job_outputs = published i a now outputs db.job_outputs;
    }

-- Any other attempt is stale.
pub complete_job_stale :
    (i a now : ℕ) (outputs : List Output) (db : Db)
    → accepts (holds a) (lookup i db.jobs) ≡ false
    → complete_job i a outputs now db ≡ err stale_attempt
unfolding complete_job
complete_job_stale i a now outputs db h =
    rw (update_job_miss i (holds a) (completed a) now db h, ◌>>=◌)

pub complete_job-Keeps :
    (i a now : ℕ) (outputs : List Output) (db : Db)
    → Inv db
    → Keeps db (complete_job i a outputs now db)
complete_job-Keeps i a now outputs db v = elim (Option-cases (lookup i db.jobs)) [
  | inl e ↦ rw (complete_job_stale i a now outputs db (rw e), Keeps) tt
  | inr (j, e) ↦ elim (Bool-cases (holds a j)) [
    | inl h ↦
        let (x, held) = holds-Held db i a j (v.job_ok i j e) (ground arith) (ground arith) in
        rw (complete_job_held i a now outputs db j x e held, Keeps)
          (
            after_completion-Inv i a now outputs db j x v e held,
            after_completion-Evolves i a now outputs db j x e held,
          )
    | inr n ↦ rw (complete_job_stale i a now outputs db (rw e n), Keeps) tt
  ]
]

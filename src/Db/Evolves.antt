-- ===== src/Db/Evolves.antt =====
-- How the tables may change over time: no job is lost, a completed job keeps its completion and its
-- outputs, a dead job stays dead, and the retries of a job only grow.
use transcodex.Base.{
  ℕ, ◌≤◌, ◌≡◌, ◌≢◌, refl, ◌∙◌, inl, inr, none, some, List, [], ◌∷◌, ◌==◌, ==_iff, arith, filter,
  Bool-cases,
}
use transcodex.Db.Table.{Table, lookup, modify, lookup-modify_self, lookup-modify_ne}
use transcodex.Db.Schema.{Job, JobStatus, Attempt, WorkerRow, OutputRow, Db}
use transcodex.Db.Sql.{Result, ok, err}
use transcodex.Db.Statements.{upsert}
use transcodex.Db.Invariant.{Inv}

pub record Lasting (j k : Job) : Type 0 where
  pub stays_completed :
      j.status ≡ JobStatus.completed
      → (k.status ≡ JobStatus.completed)
        × (k.completed_attempt_id ≡ j.completed_attempt_id)
        × (k.completed_at ≡ j.completed_at)
  pub stays_dead : j.status ≡ JobStatus.dead → k.status ≡ JobStatus.dead
  pub grows : j.retry_count ≤ k.retry_count
  pub same_max : k.max_retries ≡ j.max_retries
  pub same_priority : k.priority ≡ j.priority
  pub same_input : k.input_file ≡ j.input_file

abbrev pub outputs_of : ℕ → List OutputRow → List OutputRow
outputs_of i = filter (λ o. o.job_id == i)

pub record Evolves (db db' : Db) : Type 0 where
  pub jobs :
      (i : ℕ) (j : Job)
      → lookup i db.jobs ≡ some j
      → (k : Job) × (lookup i db'.jobs ≡ some k) × Lasting j k
  pub outputs :
      (i : ℕ) (j : Job)
      → lookup i db.jobs ≡ some j
      → j.status ≡ JobStatus.completed
      → outputs_of i db'.job_outputs ≡ outputs_of i db.job_outputs

-- Statements that return without an error have kept the invariant and lost nothing.
abbrev pub Keeps : {A : Type 0} → Db → Result (A × Db) → Type 0
Keeps db (ok (_, db')) = Inv db' × Evolves db db'
Keeps db (err _) = Unit {0}

Lasting-refl : (j : Job) → Lasting j j
Lasting-refl j = record {
  stays_completed = λ e. (e, refl, refl);
  stays_dead = λ e. e;
  grows = omega arith;
  same_max = refl;
  same_priority = refl;
  same_input = refl;
}

Lasting-trans : (j k l : Job) → Lasting j k → Lasting k l → Lasting j l
Lasting-trans j k l p q = record {
  stays_completed = λ e.
      let (s, a, t) = p.stays_completed e in
      let (s', a', t') = q.stays_completed s in (s', a' ∙ a, t' ∙ t);
  stays_dead = λ e. q.stays_dead (p.stays_dead e);
  grows = omega (arith, p.grows, q.grows);
  same_max = q.same_max ∙ p.same_max;
  same_priority = q.same_priority ∙ p.same_priority;
  same_input = q.same_input ∙ p.same_input;
}

pub Evolves-refl : (db : Db) → Evolves db db
Evolves-refl db = record { jobs = λ i j l. (j, l, Lasting-refl j); outputs = λ i j l e. refl }

pub Evolves-trans : (a b c : Db) → Evolves a b → Evolves b c → Evolves a c
Evolves-trans a b c p q = record {
  jobs = λ i j l.
      let (k, lk, h) = p.jobs i j l in
      let (m, lm, h') = q.jobs i k lk in (m, lm, Lasting-trans j k m h h');
  outputs = λ i j l e.
      let (k, lk, h) = p.jobs i j l in q.outputs i k lk (h.stays_completed e).0 ∙ p.outputs i j l e;
}

-- A change of one job that is not completed, beside any change of the attempts and the workers.
module _ (db : Db) (i : ℕ) (j : Job) (f : Job → Job) (found : lookup i db.jobs ≡ some j)
    (lasting : Lasting j (f j)) (attempts : Table Attempt) (workers : Table WorkerRow)
    (rows : List OutputRow)
    (same_rows : (k : ℕ) (u : Job)
      → lookup k db.jobs ≡ some u
      → u.status ≡ JobStatus.completed
      → outputs_of k rows ≡ outputs_of k db.job_outputs) where
  job_evolves :
      (k : ℕ) (u : Job)
      → lookup k db.jobs ≡ some u
      → (w : Job) × (lookup k (modify i f db.jobs) ≡ some w) × Lasting u w
  job_evolves k u l = elim (Bool-cases (i == k)) [
    | inl same ↦
        let e : i ≡ k = (==_iff i k).0 same in
        let p : u ≡ j = cc in (f j, rw (← e) (lookup-modify_self i f db.jobs j found), rw p lasting)
    | inr differs ↦ (u, lookup-modify_ne i f db.jobs k (λ e. ground arith) ∙ l, Lasting-refl u)
  ]

  pub modify-Evolves : Evolves db (record {
    jobs = modify i f db.jobs;
    job_attempts = attempts;
    workers = workers;
    job_outputs = rows;
  })
  modify-Evolves = record { jobs = job_evolves; outputs = same_rows }

pub attempts-Evolves : (db : Db) (t : Table Attempt) → Evolves db (record db { job_attempts = t })
attempts-Evolves db t = record { jobs = λ i j l. (j, l, Lasting-refl j); outputs = λ i j l e. refl }

pub workers-Evolves : (db : Db) (t : Table WorkerRow) → Evolves db (record db { workers = t })
workers-Evolves db t = record { jobs = λ i j l. (j, l, Lasting-refl j); outputs = λ i j l e. refl }

pub create-Evolves :
    (db : Db) (i : ℕ) (j : Job)
    → lookup i db.jobs ≡ none
    → Evolves db (record db { jobs = (i, j) ∷ db.jobs })
create-Evolves db i j fresh = record {
  jobs = λ k u l. (u, older k u l, Lasting-refl u);
  outputs = λ k u l e. refl;
}
  where
    older : (k : ℕ) (u : Job) → lookup k db.jobs ≡ some u → lookup k ((i, j) ∷ db.jobs) ≡ some u
    older k u l = elim (Bool-cases (k == i)) [
      | inl same ↦ absurd (cc ((==_iff k i).0 same))
      | inr differs ↦ rw differs l
    ]

-- An output that is published for one job changes the outputs of no other.
pub outputs_of-upsert :
    (k : ℕ) (o : OutputRow) (rows : List OutputRow)
    → o.job_id ≢ k
    → outputs_of k (upsert o rows) ≡ outputs_of k rows
outputs_of-upsert k o [] ne = ground arith
outputs_of-upsert k o (p ∷ rows) ne = ground (arith, outputs_of-upsert k o rows ne)

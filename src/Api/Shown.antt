-- ===== src/Api/Shown.antt =====
-- What `getJob` shows of a job, when its queries are answered and the tables are well-formed.
use transcodex.Base.{
  ℕ, ◌≡◌, refl, sym, ap, ◌∙◌, inl, inr, Option, none, some, List, [], ◌∷◌, ◌++◌, arith, length, map,
  length-map, length-nil, All, Bool-cases, Option-cases, ◌==◌,
}
use mathlib.Core.List.{append-nil, append_assoc}
use transcodex.Base.Int.{ℤ}
use transcodex.Db.Table.{lookup}
use transcodex.Db.Schema.{Job, JobStatus, Attempt, OutputRow, Db}
use transcodex.Db.Sql.{Error, ok, err, no_rows}
use transcodex.Db.Invariant.{Inv, tries, OutputOk, attempts_of}
use transcodex.Db.Evolves.{outputs_of}
use transcodex.Db.Postgres.{Postgres, ascending}
use transcodex.Redis.{Redis}
use transcodex.Run.{M, World, calm, autocommit, transaction, attempt, pure, throw, ◌>>=◌, bind-then}
use transcodex.Api.Reads.{
  Response, success, not_found, JobOutput, job_output, JobTimings, job_timings, joined_rows, scan,
  get_job, fetch_job_with_outputs, query, select_joined, select_timings, respond, completed_attempt,
  timings_of, total, one_row,
}
use transcodex.Api.Pages.{length-order_by}

-- The loop over the rows finds the job and the outputs in the order of the rows.
scan_outputs :
    (j : Job) (os : List OutputRow) (seen : List JobOutput) (found : Option Job)
    → scan (map (λ o. (j, some o)) os) (some j, seen) ≡ (some j, seen ++ map job_output os)
scan_outputs j [] seen found = ap (λ z. (some j, z)) (sym (append-nil seen))
scan_outputs j (o ∷ os) seen found =
    scan_outputs j os (seen ++ job_output o ∷ []) found
    ∙ ap (λ z. (some j, z)) (append_assoc seen (job_output o ∷ []) (map job_output os))

pub scan-joined_rows :
    (j : Job) (os : List OutputRow)
    → scan (joined_rows j os) (none, []) ≡ (some j, map job_output os)
scan-joined_rows j [] = refl
scan-joined_rows j (o ∷ os) = scan_outputs j os (job_output o ∷ []) none

-- Where a job is not completed, no output is its own.
pub outputs_of-none :
    (db : Db) (i : ℕ) (j : Job)
    → lookup i db.jobs ≡ some j
    → (j.status ≡ JobStatus.completed → ⊥)
    → (rows : List OutputRow) → All (OutputOk db.jobs) rows
    → outputs_of i rows ≡ []
outputs_of-none db i j l open' [] h = refl
outputs_of-none db i j l open' (o ∷ rows) ((k, lk, s, e), hs) = elim (Bool-cases (o.job_id == i)) [
  | inl same ↦ absurd (open' (ground arith))
  | inr differs ↦ rw differs (outputs_of-none db i j l open' rows hs)
]

timings_of-count :
    (o : Option Attempt) (t : Option ℤ) (n : ℕ) → (timings_of o t n).attempt_count ≡ n
timings_of-count none t n = refl
timings_of-count (some a) t n = refl

module _ (r : Redis) (pg : Postgres) where
  abbrev pub IsShown : ℕ → Db → Response (Job × List JobOutput × JobTimings) → Type 0
  IsShown i db (success (j, outputs, timings)) =
      (lookup i db.jobs ≡ some j)
      × (timings.attempt_count ≡ tries j.status j.retry_count)
      × (length outputs ≡ length (outputs_of i db.job_outputs))
      × ((j.status ≡ JobStatus.completed → ⊥) → outputs ≡ [])
  IsShown i db not_found = lookup i db.jobs ≡ none
  IsShown i db _ = ⊥

  fetched :
      (i : ℕ) (db : Db) (now : ℕ) (c : r.State) (j : Job)
      → lookup i db.jobs ≡ some j
      → let sorted = pg.order_by ascending (λ o. o.created_at) (outputs_of i db.job_outputs) in
        fetch_job_with_outputs r pg i (calm db now c)
        ≡ (ok (j, map job_output sorted, job_timings i j db), calm db now c)
  unfolding fetch_job_with_outputs autocommit transaction pure throw
  fetched i db now c j found =
      let sorted = pg.order_by ascending (λ o. o.created_at) (outputs_of i db.job_outputs) in
      let read = scan-joined_rows j sorted in
      let rows : query r (λ _. select_joined pg i) (calm db now c)
          ≡ (ok (joined_rows j sorted), calm db now c) =
        rw found refl in
      let row : query r (λ _. select_timings i) (calm db now c)
          ≡ (ok (some (job_timings i j db)), calm db now c) =
        rw found refl in
      let job : one_row r (scan (joined_rows j sorted) (none, [])).0 (calm db now c)
          ≡ (ok j, calm db now c) =
        rw read refl in
      bind-then _ _ rows (
        bind-then _ _ job (
          bind-then _ _ row
            (bind-then _ _ refl (ap (λ p. (ok (j, p.1, job_timings i j db), calm db now c)) read))))

  bind-throw :
      {A B : Type 0} (e : Error) (f : A → M r B) (w : World r) → (throw e >>= f) w ≡ (err e, w)
  unfolding throw ◌>>=◌
  bind-throw e f w = refl

  unfetched :
      (i : ℕ) (db : Db) (now : ℕ) (c : r.State)
      → lookup i db.jobs ≡ none
      → fetch_job_with_outputs r pg i (calm db now c) ≡ (err no_rows, calm db now c)
  unfolding fetch_job_with_outputs autocommit transaction
  unfetched i db now c missing =
      let rows : query r (λ _. select_joined pg i) (calm db now c) ≡ (ok [], calm db now c) =
        rw missing refl in
      bind-then _ _ rows (bind-throw no_rows _ (calm db now c))

  -- On well-formed tables, with its queries answered, `getJob` replies that there is no such job where there is
  -- none, and otherwise with the job: the attempts that it counts are the retries, and one more
  -- unless the job is queued, its outputs are as many as the table holds, and none is shown of a
  -- job that is not completed.
  pub get_job-IsShown :
      (i : ℕ) (db : Db) (now : ℕ) (c : r.State)
      → Inv db
      → (out : Response (Job × List JobOutput × JobTimings)) × (get_job r pg i (calm db now c)
          ≡ (ok out, calm db now c))
        × IsShown i db out
  unfolding get_job fetch_job_with_outputs attempt autocommit transaction pure throw ◌>>=◌
  get_job-IsShown i db now c v = elim (Option-cases (lookup i db.jobs)) [
    | inl missing ↦
        (not_found, ap (λ p. (ok (respond p.0), p.1)) (unfetched i db now c missing), missing)
    | inr (j, found) ↦
        let sorted = pg.order_by ascending (λ o. o.created_at) (outputs_of i db.job_outputs) in
        let as_many : length sorted ≡ length (outputs_of i db.job_outputs) =
          length-order_by pg ascending (λ o. o.created_at) (outputs_of i db.job_outputs) in
        (
          success (j, map job_output sorted, job_timings i j db),
          ap (λ p. (ok (respond p.0), p.1)) (fetched i db now c j found),
          (
            found,
            timings_of-count (completed_attempt j db) (total j) (attempts_of i db.job_attempts)
                ∙ (v.job_ok i j found).tried,
            length-map job_output sorted ∙ as_many,
            λ open'. ap (map job_output) (
                length-nil sorted (
                  as_many
                  ∙ ap length (outputs_of-none db i j found open' db.job_outputs v.outputs_ok))),
          ),
        )
  ]

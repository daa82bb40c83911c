-- ===== src/Api/Delivered.antt =====
-- From the worker to the client: what `getJobOutputs` shows of a job that `processJob` has completed.
use transcodex.Base.{
  ℕ, ◌≡◌, refl, sym, ap, ◌∙◌, inl, inr, true, none, some, List, [], ◌∷◌, ◌++◌, arith, length, map,
  filter, Bool-cases, ◌==◌,
}
use mathlib.Core.List.{append-nil, append_assoc}
use transcodex.Db.Table.{lookup, has_key}
use transcodex.Db.Schema.{Text, Job, JobStatus, OutputType, OutputRow, Db, same_type}
use transcodex.Db.Sql.{ok}
use transcodex.Db.Statements.{upsert}
use transcodex.Db.Invariant.{Inv}
use transcodex.Db.Evolves.{outputs_of}
use transcodex.Db.Postgres.{Postgres, ascending}
use transcodex.Redis.{Redis}
use transcodex.Run.{calm, autocommit, transaction, attempt, pure, ◌>>=◌}
use transcodex.Worker.{Worker, Output, QueueMessage, Surroundings}
use transcodex.Worker.Media.{type_text}
use transcodex.Worker.Transactions.{output_row}
use transcodex.Worker.Complete.{published}
use transcodex.Worker.Process.{process_job}
use transcodex.Worker.Success.{uploads, process_job_completes}
use transcodex.Benchmark.{complete_output_set}
use transcodex.Benchmark.Outputs.{of_type, complete_output_set_iff}
use transcodex.Api.Reads.{
  success, JobOutput, job_output, get_job_outputs, outputs_when, fetch_job, fetch_outputs,
}
use transcodex.Api.Shown.{outputs_of-none}

abbrev types : List OutputRow → List OutputType
types rows = map (λ o. o.type) rows

-- A type that a job has no output of is added at the end.
types-upsert :
    (i : ℕ) (o : OutputRow) (rows : List OutputRow)
    → o.job_id ≡ i
    → of_type o.type (types (outputs_of i rows)) ≡ 0
    → types (outputs_of i (upsert o rows)) ≡ types (outputs_of i rows) ++ o.type ∷ []
types-upsert i o [] own h = ground arith
types-upsert i o (p ∷ rows) own h = elim (Bool-cases (p.job_id == i)) [
  | inl same ↦ elim (Bool-cases (same_type p.type o.type)) [
    | inl twice ↦ absurd (let h' = rw (same, twice) at h in omega (arith, h'))
    | inr fresh ↦
        let h' = rw (same, fresh) at h in
        rw (own, same, fresh, same) (ap (λ ts. p.type ∷ ts) (types-upsert i o rows own h'))
  ]
  | inr differs ↦
      let h' = rw differs at h in rw (own, differs, differs) (types-upsert i o rows own h')
]

-- One more output is published for job `i`.
added :
    (i a now : ℕ) (o : Output) (rows : List OutputRow) (before : List OutputType)
    → types (outputs_of i rows) ≡ before
    → of_type o.type before ≡ 0
    → types (outputs_of i (upsert (output_row i a now o) rows)) ≡ before ++ o.type ∷ []
added i a now o rows before e h =
    types-upsert i (output_row i a now o) rows refl (ap (of_type o.type) e ∙ h)
    ∙ ap (λ ts. ts ++ o.type ∷ []) e

-- Each output is of a type that is not among the earlier ones.
abbrev Fresh : List Output → List OutputType → Type 0
Fresh [] before = Unit
Fresh (o ∷ os) before = (of_type o.type before ≡ 0) × Fresh os (before ++ o.type ∷ [])

types-published :
    (i a now : ℕ) (os : List Output) (rows : List OutputRow) (before : List OutputType)
    → types (outputs_of i rows) ≡ before
    → Fresh os before
    → types (outputs_of i (published i a now os rows)) ≡ before ++ map (λ o. o.type) os
types-published i a now [] rows before e h = e ∙ sym (append-nil before)
types-published i a now (o ∷ os) rows before e (h, hs) =
    types-published i a now os (upsert (output_row i a now o) rows) (before ++ o.type ∷ [])
      (added i a now o rows before e h) hs
    ∙ append_assoc before (o.type ∷ []) (map (λ p. p.type) os)

abbrev four : List OutputType
four =
    OutputType.video_360p ∷ OutputType.video_720p ∷ OutputType.video_1080p ∷ OutputType.thumbnail
    ∷ []

module _ (r : Redis) (pg : Postgres) where
  count_types :
      (k : OutputType) (rows : List OutputRow)
      → of_type k (types rows) ≡ length (filter (λ o. same_type o.type k) rows)
  count_types k [] = refl
  count_types k (o ∷ rows) = elim (Bool-cases (same_type o.type k)) [
    | inl same ↦ rw same (omega (arith, count_types k rows))
    | inr differs ↦ rw differs (count_types k rows)
  ]

  four_once : (k : OutputType) → of_type k four ≡ 1
  four_once OutputType.video_360p = refl
  four_once OutputType.video_720p = refl
  four_once OutputType.video_1080p = refl
  four_once OutputType.thumbnail = refl

  sorted_complete :
      (rows : List OutputRow)
      → types rows ≡ four
      → complete_output_set (map type_text (types (pg.order_by ascending (λ o. o.created_at) rows)))
        ≡ true
  sorted_complete rows e = (complete_output_set_iff _).1 (λ k.
      count_types k _
      ∙ pg.order_by_count ascending (λ o. o.created_at) (λ o. same_type o.type k) rows
      ∙ sym (count_types k rows)
      ∙ ap (of_type k) e
      ∙ four_once k)

  get_job_outputs-completed :
      (i : ℕ) (db : Db) (now : ℕ) (c : r.State) (j : Job)
      → lookup i db.jobs ≡ some j
      → j.status ≡ JobStatus.completed
      → get_job_outputs r pg i (calm db now c) ≡ (
        ok (
            success (
              map job_output
                (pg.order_by ascending (λ o. o.created_at) (outputs_of i db.job_outputs)))),
        calm db now c,
      )
  unfolding get_job_outputs outputs_when fetch_job fetch_outputs attempt autocommit transaction pure
      ◌>>=◌
  get_job_outputs-completed i db now c j l e = rw (l, e) refl

  types-job_output :
      (rows : List OutputRow)
      → map (λ o. type_text o.type) (map job_output rows) ≡ map type_text (types rows)
  types-job_output [] = refl
  types-job_output (o ∷ rows) = ap (λ ts. type_text o.type ∷ ts) (types-job_output rows)

  -- From well-formed tables, when every call of `processJob` is answered, a registered worker that comes
  -- upon a queued job with an unused identifier leaves it so that any later `getJobOutputs` whose
  -- queries are answered replies with outputs that the benchmark takes as a complete set: one of each of
  -- the four types.
  pub process_job_delivers :
      (v : Worker) (s : Surroundings) (msg : QueueMessage) (a : ℕ) (cause : Text) (db : Db)
      (now later : ℕ) (c c' : r.State) (j : Job)
      → Inv db
      → lookup msg.job_id db.jobs ≡ some j
      → j.status ≡ JobStatus.queued
      → lookup a db.job_attempts ≡ none
      → has_key v.id db.workers ≡ true
      → let w = calm (process_job r v s msg a cause (calm db now c)).1.db later c' in
        (outputs : List JobOutput) × (get_job_outputs r pg msg.job_id w ≡ (ok (success outputs), w))
        × (complete_output_set (map (λ o. type_text o.type) outputs) ≡ true)
  process_job_delivers v s msg a cause db now later c c' j inv l q fresh known =
      let i = msg.job_id in
      let (done, found, outputs) =
        process_job_completes r v s msg a cause db now c j inv l q fresh known in
      let after = (process_job r v s msg a cause (calm db now c)).1.db in
      let rows = outputs_of i after.job_outputs in
      let empty : outputs_of i db.job_outputs ≡ [] =
        outputs_of-none db i j l (λ e. absurd (cc (sym q ∙ e))) db.job_outputs inv.outputs_ok in
      let kinds : types rows ≡ four =
        ap (λ os. types (outputs_of i os)) outputs
        ∙ types-published i a now (uploads r v s i a) db.job_outputs [] (ap types empty)
            (refl, (refl, (refl, (refl, tt)))) in
      (
        _,
        get_job_outputs-completed i after later c' _ found refl,
        ap complete_output_set (types-job_output (pg.order_by ascending (λ o. o.created_at) rows))
            ∙ sorted_complete rows kinds,
      )

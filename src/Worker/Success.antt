-- ===== src/Worker/Success.antt =====
-- A job whose calls are all answered is completed: `processJob` from the claim to the idle worker.
use transcodex.Base.{
  ℕ, ◌≡◌, refl, ◌∙◌, ap, inl, inr, true, none, some, List, map, arith, Bool, Bool-cases, ◌∷◌,
}
use transcodex.Db.Table.{Table, lookup, has_key, modify, lookup-modify_self}
use transcodex.Db.Schema.{Text, Db, Job, JobStatus, Attempt, Phase, WorkerRow, ProcessingMode}
use transcodex.Db.Sql.{Sql, ok, commit}
use transcodex.Db.Statements.{update_attempt, update_worker, accepts, touch}
use transcodex.Db.Invariant.{Inv, workers-Inv}
use transcodex.Db.Evolves.{Keeps}
use transcodex.Db.Held.{holds-Held}
use transcodex.Redis.{Redis}
use transcodex.Run.{
  M, World, calm, transaction, autocommit, external, attempt, pure, ◌>>=◌, bind-then,
  transaction_ok,
}
use transcodex.Worker.{Worker, Output, QueueMessage, Surroundings}
use transcodex.Worker.Media.{
  tasks, task_output, uploaded, run_task, one_by_one, all_at_once, run_ffmpeg_jobs, download_input,
  run_ffmpeg, upload_output, upload_outputs, join_path,
}
use transcodex.Worker.Transactions.{complete_job, claimed, completed}
use transcodex.Worker.Upkeep.{
  DurationField, set_attempt_phase, record_attempt_duration, set_worker_busy, set_worker_idle,
}
use transcodex.Worker.Rows.{phase-Keeps, duration-Keeps}
use transcodex.Worker.Claim.{after_claim, mark_processing_queued, mark_processing-Keeps}
use transcodex.Worker.Complete.{published, after_completion, complete_job_held}
use transcodex.Worker.Process.{phase, duration, run_job, idle, finish, begin, process_job}

module _ (r : Redis) where
  -- A statement of an attempt: it succeeds and leaves the jobs and the outputs alone.
  abbrev Quiet : M r ℕ → Type 0
  Quiet m =
      (db : Db) (now : ℕ) (c : r.State)
      → Inv db
      → (n : ℕ) × (db' : Db) × (m (calm db now c) ≡ (ok n, calm db' now c))
        × (db'.jobs ≡ db.jobs)
        × (db'.job_outputs ≡ db.job_outputs)
        × Inv db'

  update_attempt_ok :
      (a : ℕ) (guard : Attempt → Bool) (set : ℕ → Attempt → Attempt) (now : ℕ) (db : Db)
      → (n : ℕ) × (db' : Db) × (update_attempt a guard set now db ≡ ok (n, db'))
        × (db'.jobs ≡ db.jobs)
        × (db'.job_outputs ≡ db.job_outputs)
  unfolding update_attempt
  update_attempt_ok a guard set now db =
      elim (Bool-cases (accepts guard (lookup a db.job_attempts))) [
        | inl h ↦
            (1, record db { job_attempts = modify a (set now) db.job_attempts }, rw h, refl, refl)
        | inr h ↦ (0, db, rw h, refl, refl)
      ]

  autocommit_ok :
      {A : Type 0} (s : Sql A) (db db' : Db) (now : ℕ) (c : r.State) (n : A)
      → s now db ≡ ok (n, db')
      → autocommit {r = r} s (calm db now c) ≡ (ok n, calm db' now c)
  unfolding autocommit transaction
  autocommit_ok s db db' now c n e = rw e

  quiet_lem :
      (s : Sql ℕ) (a : ℕ) (guard : Attempt → Bool) (set : ℕ → Attempt → Attempt)
      → ((now : ℕ) (db : Db) → s now db ≡ update_attempt a guard set now db)
      → ((now : ℕ) (db : Db) → Inv db → Keeps db (s now db))
      → Quiet (autocommit s)
  quiet_lem s a guard set same keeps db now c v =
      let (n, db', e, jobs, outputs) = update_attempt_ok a guard set now db in
      let run = same now db ∙ e in
      let kept : Keeps db (ok (n, db')) = rw run at (keeps now db v) in
      (n, db', autocommit_ok s db db' now c n run, jobs, outputs, kept.0)

  phase-Quiet : (a : ℕ) (p : Phase) → Quiet (phase r a p)
  unfolding phase set_attempt_phase
  phase-Quiet a p = quiet_lem (set_attempt_phase a p) a _ _ (λ now db. refl) (phase-Keeps a p)

  duration-Quiet : (a : ℕ) (field : DurationField) (ms : ℕ) → Quiet (duration r a field ms)
  unfolding duration record_attempt_duration
  duration-Quiet a field ms =
      quiet_lem (record_attempt_duration a field ms) a _ _ (λ now db. refl)
        (duration-Keeps a field ms)

  -- With every call answered, both modes of `runFFmpegJobs` give the same outputs: one for each of
  -- the four tasks, in their order.
  run_ffmpeg_jobs_lem :
      (s : Surroundings) (dir : Text) (mode : ProcessingMode) (db : Db) (now : ℕ) (c : r.State)
      → run_ffmpeg_jobs r s dir mode (calm db now c)
        ≡ (ok (map (task_output s dir) tasks), calm db now c)
  unfolding run_ffmpeg run_ffmpeg_jobs one_by_one all_at_once run_task external attempt pure ◌>>=◌
  run_ffmpeg_jobs_lem s dir ProcessingMode.parallel db now c = refl
  run_ffmpeg_jobs_lem s dir ProcessingMode.sequential db now c = refl

  upload_outputs_lem :
      (v : Worker) (s : Surroundings) (i a : ℕ) (os : List Output) (db : Db) (now : ℕ) (c : r.State)
      → upload_outputs r v.config s i a os (calm db now c)
        ≡ (ok (map (uploaded v.config s i a) os), calm db now c)
  unfolding upload_outputs upload_output all_at_once external attempt pure ◌>>=◌
  upload_outputs_lem v s i a List.[] db now c = refl
  upload_outputs_lem v s i a (o ∷ os) db now c = rw (upload_outputs_lem v s i a os db now c)

  external_ok :
      (db : Db) (now : ℕ) (c : r.State) → external {r = r} (calm db now c) ≡ (ok tt, calm db now c)
  unfolding external
  external_ok db now c = refl

  download_ok :
      (db : Db) (now : ℕ) (c : r.State) → download_input r (calm db now c) ≡ (ok tt, calm db now c)
  unfolding download_input external ◌>>=◌
  download_ok db now c = refl

  abbrev Runs : M r (Unit {0}) → ℕ → r.State → Db → Db → Type 0
  Runs m now c db db' = m (calm db now c) ≡ (ok tt, calm db' now c)

  complete_ok :
      (i a now : ℕ) (outputs : List Output) (db : Db) (c : r.State) (j : Job)
      → Inv db
      → lookup i db.jobs ≡ some j
      → j.status ≡ JobStatus.processing
      → j.current_attempt_id ≡ some a
      → Runs (transaction (complete_job i a outputs)) now c db (after_completion i a now outputs db)
  complete_ok i a now outputs db c j v l p e =
      let (x, held) = holds-Held db i a j (v.job_ok i j l) (ground arith) (ground arith) in
      transaction_ok _ db _ now c tt (complete_job_held i a now outputs db j x l held)

  abbrev pub uploads : Worker → Surroundings → ℕ → ℕ → List Output
  uploads v s i a =
      map (uploaded v.config s i a)
        (map (task_output s (join_path s.temp_root (s.show_id i))) tasks)

  run_job_ok :
      (v : Worker) (s : Surroundings) (msg : QueueMessage) (a now : ℕ) (db : Db) (c : r.State)
      (j : Job)
      → Inv db
      → lookup msg.job_id db.jobs ≡ some j
      → j.status ≡ JobStatus.processing
      → j.current_attempt_id ≡ some a
      → (db' : Db) × Runs
          (run_job r v s msg a)
          now
          c
          db
          (after_completion msg.job_id a now (uploads v s msg.job_id a) db')
        × (db'.jobs ≡ db.jobs)
        × (db'.job_outputs ≡ db.job_outputs)
  unfolding run_job
  run_job_ok v s msg a now db c j inv l p e =
      let i = msg.job_id in
      let (n1, d1, e1, j1, o1, v1) = phase-Quiet a Phase.downloading db now c inv in
      let (n2, d2, e2, j2, o2, v2) =
        duration-Quiet a DurationField.download s.download_ms d1 now c v1 in
      let (n3, d3, e3, j3, o3, v3) = phase-Quiet a Phase.processing d2 now c v2 in
      let (n4, d4, e4, j4, o4, v4) =
        duration-Quiet a DurationField.processing s.processing_ms d3 now c v3 in
      let (n5, d5, e5, j5, o5, v5) = phase-Quiet a Phase.uploading d4 now c v4 in
      let (n6, d6, e6, j6, o6, v6) =
        duration-Quiet a DurationField.upload s.upload_ms d5 now c v5 in
      let (n7, d7, e7, j7, o7, v7) = phase-Quiet a Phase.completing d6 now c v6 in
      let jobs : d7.jobs ≡ db.jobs = cc in
      let ran = bind-then _ _ (external_ok _ now c) (
        bind-then _ _ e1 (
          bind-then _ _ (download_ok _ now c) (
            bind-then _ _ e2 (
              bind-then _ _ e3 (
                bind-then _ _ (run_ffmpeg_jobs_lem s _ v.config.processing_mode d3 now c) (
                  bind-then _ _ e4 (
                    bind-then _ _ e5 (
                      bind-then _ _ (upload_outputs_lem v s i a _ d5 now c) (
                        bind-then _ _ e6 (
                          bind-then _ _ e7 (
                            complete_ok i a now (uploads v s i a) d7 c j v7 (rw jobs l) p
                              e))))))))))) in
      (d7, ran, jobs, cc)

  worker_ok :
      (k now : ℕ) (set : ℕ → WorkerRow → WorkerRow) (db : Db) (c : r.State)
      → (n : ℕ) × (rows : Table WorkerRow) × (autocommit {r = r}
            (update_worker k set)
            (calm db now c)
          ≡ (ok n, calm (record db { workers = rows }) now c))
  unfolding update_worker
  worker_ok k now set db c = elim (Bool-cases (has_key k db.workers)) [
    | inl h ↦ (1, modify k (set now) db.workers, autocommit_ok _ db _ now c 1 (rw h))
    | inr h ↦ (0, db.workers, autocommit_ok _ db _ now c 0 (rw h))
  ]

  attempt_ok :
      {A : Type 0} (m : M r A) (w w' : World r) (a : A)
      → m w ≡ (ok a, w')
      → attempt m w ≡ (ok (ok a), w')
  unfolding attempt
  attempt_ok m w w' a e = ap (λ p. (ok p.0, p.1)) e

  pub process_job_completes :
      (v : Worker) (s : Surroundings) (msg : QueueMessage) (a : ℕ) (cause : Text) (db : Db)
      (now : ℕ) (c : r.State) (j : Job)
      → Inv db
      → lookup msg.job_id db.jobs ≡ some j
      → j.status ≡ JobStatus.queued
      → lookup a db.job_attempts ≡ none
      → has_key v.id db.workers ≡ true
      → let out = process_job r v s msg a cause (calm db now c) in
        (out.0 ≡ ok tt)
        × (lookup msg.job_id out.1.db.jobs
            ≡ some (touch now (completed a now (touch now (claimed a j)))))
        × (out.1.db.job_outputs
            ≡ published msg.job_id a now (uploads v s msg.job_id a) db.job_outputs)
  unfolding process_job begin finish idle set_worker_busy set_worker_idle pure
  process_job_completes v s msg a cause db now c j inv l q fresh known =
      let i = msg.job_id in
      let claim = mark_processing_queued v i a now db j inv l q fresh known in
      let kept : Keeps db (ok (commit (some a), after_claim v i a now j db)) =
        rw claim at (mark_processing-Keeps v i a now db inv) in
      let (n, rows, busy) = worker_ok v.id now _ (after_claim v i a now j db) c in
      let l' = lookup-modify_self i (λ k. touch now (claimed a k)) db.jobs j l in
      let (d, ran, jobs, outputs) =
        run_job_ok v s msg a now (record (after_claim v i a now j db) { workers = rows }) c
          (touch now (claimed a j)) (workers-Inv _ rows kept.0) l' refl refl in
      let (m, rest, idled) =
        worker_ok v.id now _ (after_completion i a now (uploads v s i a) d) c in
      let all = bind-then _ _ (transaction_ok _ db _ now c (some a) claim) (
        bind-then _ _ (attempt_ok _ _ _ n busy) (
          bind-then _ _ (attempt_ok _ _ _ tt ran)
            (bind-then _ _ (attempt_ok _ _ _ m idled) refl))) in
      (
        ap (λ out. out.0) all,
        ap (λ out. lookup i out.1.db.jobs) all
            ∙ lookup-modify_self i (λ k. touch now (completed a now k)) d.jobs
                (touch now (claimed a j)) (rw jobs l'),
        ap (λ out. out.1.db.job_outputs) all ∙ rw outputs,
      )

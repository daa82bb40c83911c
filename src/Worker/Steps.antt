-- ===== src/Worker/Steps.antt =====
-- A round of a worker follows the steps of the system, whichever of its calls fail.
use transcodex.Base.{ℕ, Option, none, some, List, [], ◌∷◌, Bool-cases, inl, inr}
use transcodex.Base.Int.{ℤ}
use transcodex.Db.Schema.{Text, Job, Phase, ProcessingMode}
use transcodex.Db.Sql.{Result, ok, err, stale_attempt, already_claimed, queue_empty}
use transcodex.Redis.{Redis}
use transcodex.Run.{M, pure, throw, ◌>>=◌, attempt, autocommit, transaction}
use transcodex.System.{Step}
use transcodex.System.Paths.{
  Follows, call-Follows, pure-Follows, throw-Follows, bind-Follows, attempt-Follows, read-Follows,
  external-Follows, paths,
}
use transcodex.Db.Table.{lookup}
use transcodex.Queue.{enqueue, pop, validate_priority}
use transcodex.Worker.Transactions.{complete_job}
use transcodex.Worker.Upkeep.{DurationField, set_worker_busy}
use transcodex.Worker.Process.{
  handle_failure, run_job, process_job, poll, run_round, requeue, phase, duration, idle, finish,
  begin, handle,
}
use transcodex.Worker.{Worker, Output, QueueMessage, Surroundings}
use transcodex.Worker.Media.{
  FfmpegTask, join, download_input, run_ffmpeg, run_task, one_by_one, all_at_once, run_ffmpeg_jobs,
  tasks, upload_output, upload_outputs,
}

module _ (r : Redis) where
  run_task-Follows :
      (s : Surroundings) (dir : Text) (t : FfmpegTask) → Follows r (run_task r s dir t)
  unfolding run_task run_ffmpeg
  run_task-Follows s dir t = search paths

  one_by_one-Follows :
      {A B : Type 0} (f : A → M r B) (xs : List A)
      → ((x : A) → Follows r (f x))
      → Follows r (one_by_one r f xs)
  unfolding one_by_one
  one_by_one-Follows f [] h = pure-Follows []
  one_by_one-Follows f (x ∷ xs) h =
      bind-Follows (h x) (λ y. bind-Follows (one_by_one-Follows f xs h) (λ ys. pure-Follows _))

  join-Follows : {A : Type 0} (y : Result A) (ys : Result (List A)) → Follows r (join r y ys)
  join-Follows (ok y) (ok ys) = pure-Follows _
  join-Follows (ok y) (err e) = throw-Follows e
  join-Follows (err e) ys = throw-Follows e

  all_at_once-Follows :
      {A B : Type 0} (f : A → M r B) (xs : List A)
      → ((x : A) → Follows r (f x))
      → Follows r (all_at_once r f xs)
  unfolding all_at_once
  all_at_once-Follows f [] h = pure-Follows []
  all_at_once-Follows f (x ∷ xs) h =
      bind-Follows (attempt-Follows (h x))
        (λ y. bind-Follows (attempt-Follows (all_at_once-Follows f xs h)) (λ ys. join-Follows y ys))

  run_ffmpeg_jobs-Follows :
      (s : Surroundings) (dir : Text) (mode : ProcessingMode)
      → Follows r (run_ffmpeg_jobs r s dir mode)
  unfolding run_ffmpeg_jobs
  run_ffmpeg_jobs-Follows s dir ProcessingMode.parallel =
      all_at_once-Follows _ tasks (run_task-Follows s dir)
  run_ffmpeg_jobs-Follows s dir ProcessingMode.sequential =
      one_by_one-Follows _ tasks (run_task-Follows s dir)

  upload_outputs-Follows :
      (w : Worker) (s : Surroundings) (i a : ℕ) (os : List Output)
      → Follows r (upload_outputs r w.config s i a os)
  unfolding upload_outputs upload_output
  upload_outputs-Follows w s i a os = all_at_once-Follows _ os (λ o. search paths)

  pub enqueue-Follows : (i : ℕ) (p : ℤ) → Follows r (enqueue r i p)
  unfolding enqueue
  enqueue-Follows i p = elim (Bool-cases (validate_priority p)) [
    | inl h ↦ rw h (bind-Follows (call-Follows (λ _. Step.push i p)) (λ _. pure-Follows tt))
    | inr h ↦ rw h (throw-Follows _)
  ]

  requeue-Follows : (i : ℕ) (outcome : Result (Option ℤ)) → Follows r (requeue r i outcome)
  unfolding requeue
  requeue-Follows i (ok (some p)) =
      bind-Follows (attempt-Follows (enqueue-Follows i p)) (λ _. pure-Follows tt)
  requeue-Follows i (ok none) = pure-Follows tt
  requeue-Follows i (err e) = pure-Follows tt

  pub handle_failure-Follows : (i a : ℕ) (cause : Text) → Follows r (handle_failure r i a cause)
  unfolding handle_failure
  handle_failure-Follows i a cause =
      bind-Follows (attempt-Follows (call-Follows (λ w. Step.fail i a cause)))
        (λ outcome. requeue-Follows i outcome)

  phase-Follows : (a : ℕ) (p : Phase) → Follows r (phase r a p)
  unfolding phase
  phase-Follows a p = call-Follows (λ w. Step.phase a p)

  duration-Follows : (a : ℕ) (field : DurationField) (ms : ℕ) → Follows r (duration r a field ms)
  unfolding duration
  duration-Follows a field ms = call-Follows (λ w. Step.duration a field ms)

  complete-Follows : (i a : ℕ) (os : List Output) → Follows r (transaction (complete_job i a os))
  complete-Follows i a os = call-Follows (λ w. Step.complete i a os)

  download_input-Follows : Follows r (download_input r)
  unfolding download_input
  download_input-Follows = search paths

  run_job-Follows :
      (w : Worker) (s : Surroundings) (msg : QueueMessage) (a : ℕ) → Follows r (run_job r w s msg a)
  unfolding run_job
  run_job-Follows w s msg a = bind-Follows external-Follows λ _.
      bind-Follows (phase-Follows a _) λ _. bind-Follows download_input-Follows λ _.
        bind-Follows (duration-Follows a _ _) λ _. bind-Follows (phase-Follows a _) λ _.
          bind-Follows (run_ffmpeg_jobs-Follows s _ _) λ outputs.
            bind-Follows (duration-Follows a _ _) λ _. bind-Follows (phase-Follows a _) λ _.
              bind-Follows (upload_outputs-Follows w s _ a outputs) λ uploads.
                bind-Follows (duration-Follows a _ _)
                  λ _. bind-Follows (phase-Follows a _) λ _. complete-Follows msg.job_id a uploads

  idle-Follows : (w : Worker) → Follows r (idle r w)
  unfolding idle
  idle-Follows w =
      bind-Follows (attempt-Follows (call-Follows (λ _. Step.idle w))) (λ _. pure-Follows tt)

  finish-Follows :
      (w : Worker) (i a : ℕ) (cause : Text) (outcome : Result (Unit {0}))
      → Follows r (finish r w i a cause outcome)
  unfolding finish
  finish-Follows w i a cause (ok _) = idle-Follows w
  finish-Follows w i a cause (err stale_attempt) = idle-Follows w
  finish-Follows w i a cause (err e) =
      bind-Follows (handle_failure-Follows i a cause)
        (λ _. bind-Follows (idle-Follows w) (λ _. throw-Follows _))

  begin-Follows :
      (w : Worker) (s : Surroundings) (msg : QueueMessage) (a : ℕ) (cause : Text) (busy : Result ℕ)
      → Follows r (begin r w s msg a cause busy)
  unfolding begin
  begin-Follows w s msg a cause (err e) =
      bind-Follows (handle_failure-Follows msg.job_id a cause) (λ _. throw-Follows e)
  begin-Follows w s msg a cause (ok _) =
      bind-Follows (attempt-Follows (run_job-Follows w s msg a))
        (λ outcome. finish-Follows w msg.job_id a cause outcome)

  pub process_job-Follows :
      (w : Worker) (s : Surroundings) (msg : QueueMessage) (fresh_id : ℕ) (cause : Text)
      → Follows r (process_job r w s msg fresh_id cause)
  unfolding process_job
  process_job-Follows w s msg fresh_id cause =
      bind-Follows (call-Follows (λ _. Step.claim w msg.job_id fresh_id)) (λ claim. go claim)
    where
      go :
          (claim : Option ℕ)
          → Follows r {A = Unit {0}} (elim claim [
            | none ↦ throw already_claimed
            | some a ↦
                attempt (autocommit (set_worker_busy w msg.job_id)) >>= begin r w s msg a cause
          ])
      go none = throw-Follows already_claimed
      go (some a) =
          bind-Follows (attempt-Follows (call-Follows (λ _. Step.busy w msg.job_id)))
            (λ busy. begin-Follows w s msg a cause busy)

  found-Follows :
      {A : Type 0} (f : Job → A) (row : Option Job)
      → Follows r {A = Option A} (elim row [ none ↦ pure none | some j ↦ pure (some (f j)) ])
  found-Follows f none = pure-Follows none
  found-Follows f (some j) = pure-Follows _

  popped-Follows :
      (job_id : Option ℕ)
      → Follows r {A = ℕ} (elim job_id [ some i ↦ pure i | none ↦ throw queue_empty ])
  popped-Follows none = throw-Follows queue_empty
  popped-Follows (some i) = pure-Follows i

  poll-Follows : Follows r (poll r)
  unfolding poll pop
  poll-Follows =
      bind-Follows (bind-Follows (call-Follows (λ _. Step.pull)) popped-Follows) λ job_id.
        bind-Follows (read-Follows (λ now db. lookup job_id db.jobs)) λ row. found-Follows _ row

  handle-Follows :
      (w : Worker) (s : Surroundings) (fresh_id : ℕ) (cause : Text)
      (msg : Result (Option QueueMessage))
      → Follows r (handle r w s fresh_id cause msg)
  unfolding handle
  handle-Follows w s fresh_id cause (ok (some msg)) =
      bind-Follows (attempt-Follows (process_job-Follows w s msg fresh_id cause))
        (λ _. pure-Follows tt)
  handle-Follows w s fresh_id cause (ok none) = pure-Follows tt
  handle-Follows w s fresh_id cause (err e) = pure-Follows tt

  -- Whatever becomes of its calls, one round of a worker's loop changes the world by steps of the
  -- system and by nothing else.
  pub run_round-Follows :
      (w : Worker) (s : Surroundings) (fresh_id : ℕ) (cause : Text)
      → Follows r (run_round r w s fresh_id cause)
  unfolding run_round
  run_round-Follows w s fresh_id cause =
      bind-Follows (attempt-Follows poll-Follows) (λ msg. handle-Follows w s fresh_id cause msg)

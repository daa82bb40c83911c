-- ===== src/Api/Steps.antt =====
-- The API's upload follows the steps of the system, whichever of its calls fail.
use transcodex.Base.{ℕ, List, Option-cases, inl, inr}
use transcodex.Base.Int.{ℤ}
use transcodex.Db.Schema.{Text}
use transcodex.Db.Sql.{Result, ok, err}
use transcodex.Redis.{Redis}
use transcodex.System.{Step}
use transcodex.System.Paths.{Follows, call-Follows, pure-Follows, bind-Follows, attempt-Follows}
use transcodex.Worker.Steps.{enqueue-Follows}
use transcodex.Api.{Config}
use transcodex.Api.Enqueue.{create_queued_job}
use transcodex.Api.Upload.{Part, Parsed, parsed, rejected, submit, answer, upload}

module _ (r : Redis) where
  pub create_queued_job-Follows :
      (c : Config) (i : ℕ) (input_file : Text) (p : ℤ)
      → Follows r (create_queued_job r c i input_file p)
  unfolding create_queued_job
  create_queued_job-Follows c i input_file p =
      bind-Follows (call-Follows (λ _. Step.create i input_file p c.worker_max_retries))
        λ _. bind-Follows (attempt-Follows (enqueue-Follows r i p)) λ _. pure-Follows tt

  answer-Follows :
      (key : Text) (objects : List Text) (res : Result (Unit {0}))
      → Follows r (answer r key objects res)
  answer-Follows key objects (ok _) = pure-Follows _
  answer-Follows key objects (err _) = pure-Follows _

  submit-Follows :
      (c : Config) (i : ℕ) (form : Parsed) (objects : List Text)
      → Follows r (submit r c i form objects)
  unfolding submit
  submit-Follows c i (rejected reply) objects = pure-Follows _
  submit-Follows c i (parsed form) objects = elim (Option-cases form.input_file) [
    | inl e ↦ rw e (pure-Follows _)
    | inr (key, e) ↦ rw e (
        bind-Follows (attempt-Follows (create_queued_job-Follows c i key form.priority))
          (answer-Follows key objects))
  ]

  -- Whatever the form holds and whatever becomes of its calls, `upload` changes the tables and the queue
  -- by steps of the system and by nothing else.
  upload-Follows :
      (c : Config) (i : ℕ) (job : Text) (parts : List Part) (objects : List Text)
      → Follows r (upload r c i job parts objects)
  unfolding upload
  upload-Follows c i job parts objects = submit-Follows c i _ _

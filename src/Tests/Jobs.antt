-- ===== src/Tests/Jobs.antt =====
-- The theorems on the transactions of a job and on its processing, at concrete tables.
use transcodex.Base.{All, true, ◌≡◌, refl, inr, Option, none, some, false}
use transcodex.Base.Int.{ℤ, pos}
use transcodex.Base.Text.{codes}
use transcodex.Db.Table.{lookup, modify}
use transcodex.Db.Schema.{Db, Job, Attempt, FailureCategory}
use transcodex.Db.Sql.{ok, err, commit, give_up, stale_attempt}
use transcodex.Db.Statements.{touch, requeued}
use transcodex.Db.Invariant.{Inv}
use transcodex.System.Ends.{
  complete_job_completes, requeue_job_retries, IsCompleted, IsRetried, IsExpired, SameJob,
  SameAttempt, Elsewhere,
}
use transcodex.Worker.Transactions.{mark_processing, complete_job, fail_attempt}
use transcodex.Worker.Claim.{mark_processing_queued, after_claim}
use transcodex.Worker.Complete.{complete_job_held, after_completion}
use transcodex.Worker.Published.{has_output}
use transcodex.Db.Retry.{after_retry, after_retry-Inv}
use transcodex.Reaper.Transactions.{attempt_expired, requeue_job}
use transcodex.Reaper.Invariant.{requeue_job_held}
use transcodex.System.Exclusive.{claim_once, complete_once, expired-fenced}
use transcodex.Api.Create.{new_job}
use transcodex.Tests.Samples.{
  input, sample_worker, queued_db, queued_db-Inv, sample_job, sample_attempt, processing_db,
  processing_db-Inv, processing_db-Held, outputs,
}

claim_once_example :
    mark_processing sample_worker 7 41 120 processing_db ≡ ok (give_up none, processing_db)
unfolding modify
claim_once_example =
    claim_once sample_worker sample_worker 7 40 41 40 110 120 queued_db processing_db queued_db-Inv
      (mark_processing_queued sample_worker 7 40 110 queued_db (new_job 100 3 (pos 5) input)
        queued_db-Inv refl refl refl refl)

complete_once_example :
    complete_job 7 40 outputs 140 (after_completion 7 40 130 outputs processing_db)
    ≡ err stale_attempt
complete_once_example =
    complete_once 7 40 40 130 140 outputs outputs processing_db
      (after_completion 7 40 130 outputs processing_db) processing_db-Inv
      (complete_job_held 7 40 130 outputs processing_db sample_job sample_attempt refl
        processing_db-Held)

-- The reaper has taken the job from attempt 40, and attempt 41 has claimed it.
abbrev requeued_db : Db
requeued_db =
    after_retry 7 40 300 (attempt_expired FailureCategory.worker_death) false processing_db

abbrev requeued_job : Job
requeued_job = touch 300 (requeued 300 sample_job)

abbrev reclaimed_db : Db
reclaimed_db = after_claim sample_worker 7 41 305 requeued_job requeued_db

unnamed :
    requeue_job 7 none FailureCategory.worker_death 300 processing_db
    ≡ ok (commit (some (pos 5)), requeued_db)
unnamed =
    requeue_job_held 7 40 300 none FailureCategory.worker_death processing_db sample_job
      sample_attempt refl processing_db-Held refl

requeued_db-Inv : Inv requeued_db
requeued_db-Inv =
    after_retry-Inv 7 40 300 (attempt_expired FailureCategory.worker_death) processing_db sample_job
      sample_attempt (λ y. refl) (λ y. refl) refl processing_db-Inv refl processing_db-Held

expired-fenced_example :
    (complete_job 7 40 outputs 310 reclaimed_db ≡ err stale_attempt)
    × (fail_attempt 7 40 (codes "ffmpeg") 310 reclaimed_db ≡ ok (give_up none, reclaimed_db))
unfolding modify
expired-fenced_example =
    expired-fenced 7 40 300 310 none FailureCategory.worker_death (some (pos 5)) outputs
      (codes "ffmpeg") processing_db requeued_db reclaimed_db sample_job processing_db-Inv refl refl
      unnamed
      (inr (
        sample_worker,
        41,
        41,
        305,
        mark_processing_queued sample_worker 7 41 305 requeued_db requeued_job requeued_db-Inv refl
            refl refl refl,
      ))

complete_job_completes_example :
    (u : Db) × (complete_job 7 40 outputs 130 processing_db ≡ ok (commit tt, u))
    × ((k : Job) × (y : Attempt) × (lookup 7 u.jobs ≡ some k)
        × (lookup 40 u.job_attempts ≡ some y)
        × IsCompleted 40 130 k y
        × (k.retry_count ≡ 0)
        × SameJob sample_job k
        × SameAttempt sample_attempt y)
    × All (λ o. has_output 7 o.type 40 u.job_outputs ≡ true) outputs
    × Elsewhere 7 40 processing_db u
complete_job_completes_example =
    complete_job_completes 7 40 130 outputs processing_db sample_job sample_attempt refl
      processing_db-Held

requeue_job_retries_example :
    (o : Option ℤ) × (u : Db) × (requeue_job 7
        (some 40)
        FailureCategory.lease_expired
        300
        processing_db
      ≡ ok (commit o, u))
    × ((k : Job) × (y : Attempt) × (lookup 7 u.jobs ≡ some k)
        × (lookup 40 u.job_attempts ≡ some y)
        × IsRetried 300 sample_job k o
        × (SameJob sample_job k × (k.current_attempt_id ≡ none))
        × IsExpired 300 FailureCategory.lease_expired y
        × SameAttempt sample_attempt y)
    × Elsewhere 7 40 processing_db u
requeue_job_retries_example =
    requeue_job_retries 7 40 300 (some 40) FailureCategory.lease_expired processing_db sample_job
      sample_attempt refl processing_db-Held refl

-- ===== src/Tests/Paths.antt =====
-- The theorems on the paths and the handlers of the system, at concrete worlds.
use transcodex.Base.{
  List, ℕ, ◌+◌, ◌≤◌, ◌≡◌, refl, ap, sym, none, some, [], ◌∷◌, true, inl, inr, Bool-cases, ◌==◌,
  false,
}
use transcodex.Base.Int.{pos}
use transcodex.Base.Text.{codes}
use transcodex.Db.Table.{lookup, modify}
use transcodex.Db.Statements.{insert_job, insert_attempt, update_job}
use transcodex.Db.Schema.{Job, Attempt}
use transcodex.Db.Sql.{ok}
use transcodex.Db.Invariant.{Inv, attempts_of}
use transcodex.Db.Evolves.{Evolves}
use transcodex.Redis.{in_memory, no_keys}
use transcodex.Run.{World, calm, transaction, autocommit, answered, lost, unacknowledged}
use transcodex.Queue.{validate_priority}
use transcodex.Queue.Spec.{Waiting, waits, Represents}
use transcodex.Worker.Transactions.{mark_processing}
use transcodex.Worker.Upkeep.{register}
use transcodex.Api.Create.{create_job}
use transcodex.Reaper.Sweep.{recover_missing_queue_messages, recover_orphaned_jobs}
use transcodex.Reaper.Transactions.{is_expired, is_stale}
use transcodex.Reaper.Expiry.{recover_orphaned_jobs_recovers, IsEnded}
use transcodex.Reaper.Recovery.{recover_missing_queue_messages_restores}
use transcodex.System.{Step, Reach, empty_db}
use transcodex.System.Invariant.{
  empty_db-Inv, reach-Inv, reach-Evolves, attempts-bounded, running_unique,
}
use transcodex.Worker.Loop.{Round}
use transcodex.Tests.Samples.{
  input, sample_worker, surroundings, queued_db, sample_attempt, sample_job, processing_db,
  processing_db-Inv, reaper_config,
}

abbrev start : World in_memory
start = calm empty_db 100 no_keys

abbrev registered : World in_memory
registered = (autocommit (register sample_worker) start).1

abbrev uploaded_job : World in_memory
uploaded_job = (transaction (create_job 7 input (pos 5) (pos 3)) registered).1

abbrev waited : World in_memory
waited = record uploaded_job { now = uploaded_job.now + 10 }

abbrev claimed_job : World in_memory
claimed_job = (transaction (mark_processing sample_worker 7 40) waited).1

abbrev path : Reach in_memory start claimed_job
path =
    Reach.next
      (Reach.next
        (Reach.next (Reach.next Reach.here (Step.start sample_worker))
          (Step.create 7 input (pos 5) (pos 3)))
        (Step.wait 10))
      (Step.claim sample_worker 7 40)

reach-Inv_example : Inv claimed_job.db
reach-Inv_example = reach-Inv in_memory start claimed_job path empty_db-Inv

reach-Evolves_example : Evolves empty_db claimed_job.db
reach-Evolves_example = reach-Evolves in_memory start claimed_job path empty_db-Inv

attempts-bounded_example : attempts_of 7 claimed_job.db.job_attempts ≤ 4
unfolding transaction autocommit mark_processing create_job register insert_job insert_attempt
    update_job modify
attempts-bounded_example = attempts-bounded in_memory start claimed_job 7 sample_job refl path refl

running_unique_example : ◌≡◌ {A = ℕ} 40 40
unfolding transaction autocommit mark_processing create_job register insert_job insert_attempt
    update_job modify
running_unique_example =
    running_unique in_memory start claimed_job 40 40 sample_attempt sample_attempt refl path refl
      refl refl refl refl

-- The claim is answered; the answer to the worker's own row is lost; the job fails.
abbrev shaky : World in_memory
shaky = record (calm queued_db 110 no_keys) {
  fates = answered ∷ answered ∷ answered ∷ lost ∷ unacknowledged ∷ lost ∷ [];
}

abbrev late : World in_memory
late = record (calm processing_db 500 no_keys) { fates = answered ∷ unacknowledged ∷ [] }

abbrev rounds : List Round
rounds =
    record { surroundings = surroundings; fresh_id = 40; cause = codes "disk"; seconds = 9 }
    ∷ record { surroundings = surroundings; fresh_id = 41; cause = codes "disk"; seconds = 9 }
    ∷ []

some_inj : (j k : Job) → some j ≡ some k → j ≡ k
some_inj j k e = cc

missing_row : (j : Job) → none ≡ some j → ⊥
missing_row j e = cc

queued_priority :
    (k : ℕ) (row : Job) → lookup k queued_db.jobs ≡ some row → validate_priority row.priority ≡ true
queued_priority k row e = elim (Bool-cases (k == 7)) [
  | inl same ↦ ap (λ j. validate_priority j.priority) (sym (some_inj _ row (rw same at e)))
  | inr other ↦ absurd (missing_row row (rw other at e))
]

abbrev nothing_waits : Represents no_keys []
nothing_waits = record {
  once = tt;
  members = λ _. refl;
  lists = λ _. refl;
  falling = tt;
  tiers = λ _. refl;
}

recover_missing_queue_messages_restores_example :
    let out = recover_missing_queue_messages in_memory reaper_config (calm queued_db 500 no_keys) in
    (out.0 ≡ ok tt)
    × (out.1.db ≡ queued_db)
    × ((q' : Waiting) × Represents out.1.cache q'
        × ((k : ℕ) → false ≡ true → waits k q' ≡ true)
        × ((i : ℕ) (j : Job)
            → lookup i queued_db.jobs ≡ some j
            → is_stale reaper_config 500 (i, j) ≡ true
            → waits i q' ≡ true))
recover_missing_queue_messages_restores_example =
    recover_missing_queue_messages_restores in_memory reaper_config queued_db 500 no_keys []
      queued_priority nothing_waits

processing_priority :
    (k : ℕ) (row : Job)
    → lookup k processing_db.jobs ≡ some row
    → validate_priority row.priority ≡ true
processing_priority k row e = elim (Bool-cases (k == 7)) [
  | inl same ↦ ap (λ j. validate_priority j.priority) (sym (some_inj _ row (rw same at e)))
  | inr other ↦ absurd (missing_row row (rw other at e))
]

recover_orphaned_jobs_recovers_example :
    let out = recover_orphaned_jobs in_memory reaper_config (calm processing_db 500 no_keys) in
    (out.0 ≡ ok tt)
    × Inv out.1.db
    × ((a : ℕ) (x : Attempt)
        → lookup a out.1.db.job_attempts ≡ some x
        → is_expired reaper_config 500 (a, x) ≡ false)
    × ((a : ℕ) (x : Attempt)
        → lookup a processing_db.job_attempts ≡ some x
        → is_expired reaper_config 500 (a, x) ≡ true
        → IsEnded 500 a out.1.db)
recover_orphaned_jobs_recovers_example =
    recover_orphaned_jobs_recovers in_memory reaper_config processing_db 500 no_keys
      processing_db-Inv processing_priority

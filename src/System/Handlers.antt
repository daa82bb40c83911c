-- ===== src/System/Handlers.antt =====
-- What each handler leaves of the tables, whatever becomes of its calls: a handler that is cut short
-- by an error, a timeout or a lost answer is covered by the fates of its calls.
use transcodex.Base.{ℕ}
use transcodex.Base.Int.{ℤ}
use transcodex.Db.Schema.{Text}
use transcodex.Db.Invariant.{Inv}
use transcodex.Db.Evolves.{Evolves}
use transcodex.Redis.{Redis}
use transcodex.Run.{World}
use transcodex.Worker.{Worker, QueueMessage, Surroundings}
use transcodex.Worker.Process.{process_job, run_round}
use transcodex.Worker.Steps.{process_job-Follows, run_round-Follows}
use transcodex.System.Invariant.{reach_lem}
use transcodex.Reaper
use transcodex.Reaper.Sweep.{sweep}
use transcodex.Reaper.Steps.{sweep-Follows}
use transcodex.Api
use transcodex.Api.Enqueue.{create_queued_job}
use transcodex.Api.Steps.{create_queued_job-Follows}

-- From well-formed tables, `processJob` leads to well-formed tables, loses no job, undoes no
-- completion and revives no dead job, whichever of its calls fail or lose their answer.
process_job_keeps :
    (r : Redis) (v : Worker) (s : Surroundings) (msg : QueueMessage) (fresh_id : ℕ) (cause : Text)
    (w : World r)
    → Inv w.db
    → let u = (process_job r v s msg fresh_id cause w).1 in Inv u.db × Evolves w.db u.db
process_job_keeps r v s msg fresh_id cause w =
    reach_lem r w _ ((process_job-Follows r v s msg fresh_id cause).path w)

-- From well-formed tables, one round of a worker's loop, from the poll to the end of the job, leads
-- to well-formed tables, loses no job, undoes no completion and revives no dead job, whichever of
-- its calls fail or lose their answer.
run_round_keeps :
    (r : Redis) (v : Worker) (s : Surroundings) (fresh_id : ℕ) (cause : Text) (w : World r)
    → Inv w.db
    → let u = (run_round r v s fresh_id cause w).1 in Inv u.db × Evolves w.db u.db
run_round_keeps r v s fresh_id cause w =
    reach_lem r w _ ((run_round-Follows r v s fresh_id cause).path w)

-- From well-formed tables, a sweep of the reaper leads to well-formed tables, loses no job, undoes
-- no completion and revives no dead job, whichever of its calls fail or lose their answer.
sweep_keeps :
    (r : Redis) (c : Reaper.Config) (w : World r)
    → Inv w.db
    → let u = (sweep r c w).1 in Inv u.db × Evolves w.db u.db
sweep_keeps r c w = reach_lem r w _ ((sweep-Follows r c).path w)

-- From well-formed tables, `createQueuedJob` leads to well-formed tables, loses no job and undoes no
-- completion, whichever of its calls fail or lose their answer, and whatever the configured retries.
create_queued_job_keeps :
    (r : Redis) (c : Api.Config) (i : ℕ) (input_file : Text) (p : ℤ) (w : World r)
    → Inv w.db
    → let u = (create_queued_job r c i input_file p w).1 in Inv u.db × Evolves w.db u.db
create_queued_job_keeps r c i input_file p w =
    reach_lem r w _ ((create_queued_job-Follows r c i input_file p).path w)

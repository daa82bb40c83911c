-- ===== src/Worker/Shutdown.antt =====
-- How a worker process ends: `main` of worker/main.go after `worker.New`, the loop of `Run` and the
-- goroutine of `runHeartbeat` in worker/internal/worker/worker.go, with the contexts, the channel
-- `done` and the drain timer between them. A step is one of theirs, in any order that Go's
-- scheduler chooses; the signal and the passing of time are steps of the environment.
use transcodex.Base.{ℕ, suc, ◌+◌, ◌≤◌, ◌≡◌, ◌⊎◌, Bool, true, false, ◌||◌}
pub mod Order
pub mod Drain

-- Where `main` is: in its first select, in its second, at the last <-done, or returning, which runs
-- the deferred calls.
pub data MainPhase : Type 0 where
  serving draining joining returned : MainPhase

-- Where `Run` is: at the select on stopPollingCtx, in `poll`, in `sleepOrDone`, in `processJob`, at
-- the return, in the deferred <-heartbeatDone, or past it, where `done` is closed.
pub data RunPhase : Type 0 where
  checking polling sleeping working leaving waiting done : RunPhase

-- `main`, `run` and `is_beating` are where the goroutines are; the next three are the contexts that
-- have been cancelled; `lease_lost` tells that `renewLeaseUntilDone` has cancelled the context of the
-- job in work; `deadline` is when the drain timer fires; `begun` counts calls of `processJob`.
pub record Process : Type 0 where
  pub main : MainPhase
  pub run : RunPhase
  pub is_beating : Bool
  pub polling_stopped : Bool
  pub processing_cancelled : Bool
  pub heartbeat_stopped : Bool
  pub lease_lost : Bool
  pub now : ℕ
  pub deadline : ℕ
  pub begun : ℕ

abbrev pub started_worker : Process
started_worker = record {
  main = serving;
  run = checking;
  is_beating = true;
  polling_stopped = false;
  processing_cancelled = false;
  heartbeat_stopped = false;
  lease_lost = false;
  now = 0;
  deadline = 0;
  begun = 0;
}

-- A step of the goroutine of `Run`.
pub data RunStep (p : Process) : Process → Type 0 where
  stop_seen : p.run ≡ checking → p.polling_stopped ≡ true → RunStep p (record p { run = leaving })
  stop_not_seen :
      p.run ≡ checking → p.polling_stopped ≡ false → RunStep p (record p { run = polling })
  -- the queue is empty, the job is gone, or `poll` has failed
  polled_nothing : p.run ≡ polling → RunStep p (record p { run = sleeping })
  -- `processJob` makes a context for the job, and starts `renewLeaseUntilDone`
  polled_job :
      p.run ≡ polling
      → RunStep p (record p { run = working; begun = suc p.begun; lease_lost = false })
  slept : p.run ≡ sleeping → RunStep p (record p { run = checking })
  -- `processJob` returns, after its deferred `cancel` and <-leaseDone
  processed : p.run ≡ working → RunStep p (record p { run = checking })
  left : p.run ≡ leaving → RunStep p (record p { run = waiting; heartbeat_stopped = true })
  joined : p.run ≡ waiting → p.is_beating ≡ false → RunStep p (record p { run = done })

-- heartbeatCtx is cancelled by `stopHeartbeat`, and with its parent processCtx.
abbrev pub HeartbeatDone : Process → Type 0
HeartbeatDone p = (p.heartbeat_stopped ≡ true) ⊎ (p.processing_cancelled ≡ true)

-- jobCtx is cancelled by `renewLeaseUntilDone`, and with its parent processCtx.
abbrev pub job_done : Process → Bool
job_done p = p.lease_lost || p.processing_cancelled

pub data Step (grace : ℕ) (p : Process) : Process → Type 0 where
  run_step : {q : Process} → RunStep p q → Step grace p q
  heartbeat_ends : HeartbeatDone p → Step grace p (record p { is_beating = false })
  -- a renewal of the lease has failed
  renewal_cancels : p.run ≡ working → Step grace p (record p { lease_lost = true })
  -- <-done in the first select
  finished : p.main ≡ serving → p.run ≡ done → Step grace p (record p { main = returned })
  -- <-signals: `stopPolling`, and a new drain timer
  signalled :
      p.main ≡ serving
      → Step grace p
          (record p { main = draining; polling_stopped = true; deadline = p.now + grace })
  drained : p.main ≡ draining → p.run ≡ done → Step grace p (record p { main = returned })
  -- <-drainTimer.C: `cancelProcessing`
  timed_out :
      p.main ≡ draining
      → p.deadline ≤ p.now
      → Step grace p (record p { main = joining; processing_cancelled = true })
  last_done : p.main ≡ joining → p.run ≡ done → Step grace p (record p { main = returned })
  passes : (t : ℕ) → Step grace p (record p { now = p.now + t })

pub data Reach (grace : ℕ) (p : Process) : Process → Type 0 where
  here : Reach grace p p
  next : {q r : Process} → Reach grace p q → Step grace q r → Reach grace p r

-- ===== src/Worker/Shutdown/Order.antt =====
-- The order in which a worker process takes itself apart.
use transcodex.Base.{ℕ, ◌<◌, ◌≡◌, ◌≢◌, ◌⊎◌, refl, Bool, true, false, arith, not, ◌&&◌, ◌||◌, leb}
use transcodex.Worker.Shutdown.{
  MainPhase, RunPhase, Process, serving, joining, returned, working, leaving, waiting, done,
  started_worker, RunStep, stop_seen, stop_not_seen, polled_nothing, polled_job, slept, processed,
  left, joined, Step, run_step, heartbeat_ends, renewal_cancels, job_done, finished, signalled,
  drained, timed_out, last_done, passes, Reach, here, next,
}

-- What the first select of `main` has not been left for
abbrev is_serving : MainPhase → Bool
is_serving serving = true
is_serving _ = false

-- The drain timer has fired, or `main` returns.
abbrev is_late : MainPhase → Bool
is_late joining = true
is_late returned = true
is_late _ = false

abbrev is_closing : MainPhase → Bool
is_closing returned = true
is_closing _ = false

-- `Run` has seen that polling is stopped.
abbrev is_stopping : RunPhase → Bool
is_stopping leaving = true
is_stopping waiting = true
is_stopping done = true
is_stopping _ = false

-- `Run` has called `stopHeartbeat`.
abbrev is_left : RunPhase → Bool
is_left waiting = true
is_left done = true
is_left _ = false

abbrev is_done : RunPhase → Bool
is_done done = true
is_done _ = false

abbrev implies : Bool → Bool → Bool
implies a b = not a || b

-- What holds between the goroutines
abbrev pub Order : Process → Type 0
Order p =
    (is_serving p.main ≡ not p.polling_stopped)
    × (implies (is_stopping p.run) p.polling_stopped ≡ true)
    × (is_left p.run ≡ p.heartbeat_stopped)
    × (implies (is_done p.run) (not p.is_beating) ≡ true)
    × (implies (is_closing p.main) (is_done p.run) ≡ true)
    × (implies p.processing_cancelled (is_late p.main && leb p.deadline p.now) ≡ true)
    × (implies (not p.is_beating) (p.heartbeat_stopped || p.processing_cancelled) ≡ true)

pub started_worker-Order : Order started_worker
started_worker-Order = (refl, refl, refl, refl, refl, refl, refl)

RunStep-Order : (p q : Process) → RunStep p q → Order p → Order q
RunStep-Order p _ (stop_seen e f) o = ground arith
RunStep-Order p _ (stop_not_seen e f) o = ground arith
RunStep-Order p _ (polled_nothing e) o = ground arith
RunStep-Order p _ (polled_job e) o = ground arith
RunStep-Order p _ (slept e) o = ground arith
RunStep-Order p _ (processed e) o = ground arith
RunStep-Order p _ (left e) o = ground arith
RunStep-Order p _ (joined e f) o = ground arith

Step-Order : (grace : ℕ) (p q : Process) → Step grace p q → Order p → Order q
Step-Order grace p q (run_step s) o = RunStep-Order p q s o
Step-Order grace p _ (heartbeat_ends h) o = ground arith
Step-Order grace p _ (renewal_cancels e) o = o
Step-Order grace p _ (finished e f) o = ground arith
Step-Order grace p _ (signalled e) o = ground arith
Step-Order grace p _ (drained e f) o = ground arith
Step-Order grace p _ (timed_out e h) o = ground arith
Step-Order grace p _ (last_done e f) o = ground arith
Step-Order grace p _ (passes t) o = ground arith

pub Reach-Order : (grace : ℕ) (p q : Process) → Reach grace p q → Order p → Order q
Reach-Order grace p _ here o = o
Reach-Order grace p _ (next {q} {r} path s) o =
    Step-Order grace q r s (Reach-Order grace p q path o)

-- When `main` of a worker returns, and its deferred calls close the connections, the loop of `Run`
-- has returned and the goroutine of the heartbeat has ended, on every schedule: nothing of the
-- worker is left that could use them.
pub returned-Closed :
    (grace : ℕ) (p : Process)
    → Reach grace started_worker p
    → p.main ≡ returned
    → (p.run ≡ done) × (p.is_beating ≡ false)
returned-Closed grace p path e =
    let o = Reach-Order grace started_worker p path started_worker-Order in ground arith

-- A job in work is left alone until the drain timer fires: as long as `main` does not stand behind
-- that case of its select, or the timer's deadline lies ahead, the context of processing is not
-- cancelled, the context of the job is cancelled only if the renewal of the lease has cancelled it,
-- and the goroutine of the heartbeat has not ended.
pub working_undisturbed :
    (grace : ℕ) (p : Process)
    → Reach grace started_worker p
    → p.run ≡ working
    → (p.main ≢ joining) ⊎ (p.now < p.deadline)
    → (p.processing_cancelled ≡ false) × (job_done p ≡ p.lease_lost) × (p.is_beating ≡ true)
working_undisturbed grace p path e h =
    let o = Reach-Order grace started_worker p path started_worker-Order in ground arith

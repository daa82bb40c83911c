-- ===== src/Worker/Shutdown/Drain.antt =====
-- What a worker process still does after the signal.
use transcodex.Base.{ℕ, suc, ◌+◌, ◌≤◌, ◌≡◌, ◌⊎◌, inl, inr, refl, Bool, true, false, arith}
use transcodex.Worker.Shutdown.{
  RunPhase, Process, checking, polling, sleeping, working, leaving, waiting, done, started_worker,
  RunStep, stop_seen, stop_not_seen, polled_nothing, polled_job, slept, processed, left, joined,
  run_step, heartbeat_ends, renewal_cancels, finished, signalled, drained, timed_out, last_done,
  passes, Reach, here, next, HeartbeatDone,
}
use transcodex.Worker.Shutdown.Order.{Order, Reach-Order, started_worker-Order}

-- The steps that `Run` has left, once polling is stopped
abbrev pub steps_left : RunPhase → ℕ
steps_left polling = 5
steps_left sleeping = 4
steps_left working = 4
steps_left checking = 3
steps_left leaving = 2
steps_left waiting = 1
steps_left done = 0

steps_left_bounded : (phase : RunPhase) → steps_left phase ≤ 5
steps_left_bounded phase = ground arith

-- The jobs that may still be begun: one, if the queue is being polled
abbrev may_begin : RunPhase → ℕ
may_begin polling = 1
may_begin _ = 0

-- The steps of `Run` among those of a path
abbrev pub run_steps : (grace : ℕ) (p q : Process) → Reach grace p q → ℕ
run_steps grace p q here = 0
run_steps grace p _ (next {q} path (run_step s)) = suc (run_steps grace p q path)
run_steps grace p _ (next {q} path _) = run_steps grace p q path

abbrev Stopped : Process → Process → ℕ → Type 0
Stopped p q n =
    (q.polling_stopped ≡ true)
    × (n + steps_left q.run ≤ steps_left p.run)
    × (q.begun + may_begin q.run ≤ p.begun + may_begin p.run)

RunStep-Stopped : (p q r : Process) (n : ℕ) → RunStep q r → Stopped p q n → Stopped p r (suc n)
RunStep-Stopped p q _ n (stop_seen e f) h = ground arith
RunStep-Stopped p q _ n (stop_not_seen e f) h = ground arith
RunStep-Stopped p q _ n (polled_nothing e) h = ground arith
RunStep-Stopped p q _ n (polled_job e) h = ground arith
RunStep-Stopped p q _ n (slept e) h = ground arith
RunStep-Stopped p q _ n (processed e) h = ground arith
RunStep-Stopped p q _ n (left e) h = ground arith
RunStep-Stopped p q _ n (joined e f) h = ground arith

Reach-Stopped :
    (grace : ℕ) (p q : Process) (path : Reach grace p q)
    → p.polling_stopped ≡ true
    → Stopped p q (run_steps grace p q path)
Reach-Stopped grace p _ here h = (h, omega arith, omega arith)
Reach-Stopped grace p _ (next {q} {r} path (run_step s)) h =
    RunStep-Stopped p q r (run_steps grace p q path) s (Reach-Stopped grace p q path h)
Reach-Stopped grace p _ (next {q} path (heartbeat_ends e)) h = Reach-Stopped grace p q path h
Reach-Stopped grace p _ (next {q} path (renewal_cancels e)) h = Reach-Stopped grace p q path h
Reach-Stopped grace p _ (next {q} path (finished e f)) h = Reach-Stopped grace p q path h
Reach-Stopped grace p _ (next {q} path (signalled e)) h =
    let (stopped, steps, begun) = Reach-Stopped grace p q path h in (refl, steps, begun)
Reach-Stopped grace p _ (next {q} path (drained e f)) h = Reach-Stopped grace p q path h
Reach-Stopped grace p _ (next {q} path (timed_out e f)) h = Reach-Stopped grace p q path h
Reach-Stopped grace p _ (next {q} path (last_done e f)) h = Reach-Stopped grace p q path h
Reach-Stopped grace p _ (next {q} path (passes t)) h = Reach-Stopped grace p q path h

-- Once polling is stopped, on every schedule at most one more job is begun, and none at all unless
-- the queue is being polled at that moment.
pub stopped_begins :
    (grace : ℕ) (p q : Process)
    → Reach grace p q
    → p.polling_stopped ≡ true
    → (q.begun ≤ suc p.begun) × ((p.run ≡ polling) ⊎ (q.begun ≤ p.begun))
stopped_begins grace p q path h =
    let (stopped, steps, begun) = Reach-Stopped grace p q path h in ground arith

-- A step of the goroutine of `Run`, or the end of that of the heartbeat, where it has not ended
abbrev pub CanStep : Process → Type 0
CanStep p = ((q : Process) × RunStep p q) ⊎ (HeartbeatDone p × (p.is_beating ≡ true))

-- Where neither `poll`, nor a sleep, nor `processJob` waits for the world, `Run` or the heartbeat
-- has a step.
progress :
    (p : Process)
    → Order p
    → p.polling_stopped ≡ true
    → (phase : RunPhase) → p.run ≡ phase
    → (p.run ≡ done) ⊎ CanStep p
progress p o h checking e = inr (inl (_, stop_seen e h))
progress p o h polling e = inr (inl (_, polled_nothing e))
progress p o h sleeping e = inr (inl (_, slept e))
progress p o h working e = inr (inl (_, processed e))
progress p o h leaving e = inr (inl (_, left e))
progress p o h waiting e = elim (Beat-cases p.is_beating) [
  | inl beating ↦ inr (inr (inl (ground arith), beating))
  | inr ended ↦ inr (inl (_, joined e ended))
]
  where
    Beat-cases : (b : Bool) → (b ≡ true) ⊎ (b ≡ false)
    Beat-cases true = inl refl
    Beat-cases false = inr refl
progress p o h done e = inl e

-- The drain ends: once polling is stopped, the goroutine of `Run` makes at most five more steps on
-- any schedule, of which `poll`, one sleep or one job are the only ones that wait for the world, and
-- until it has closed `done` it can make a step, or it waits for the heartbeat, whose context is
-- then done.
pub drain_ends :
    (grace : ℕ) (p q : Process) (before : Reach grace started_worker p) (path : Reach grace p q)
    → p.polling_stopped ≡ true
    → (run_steps grace p q path ≤ 5) × ((q.run ≡ done) ⊎ CanStep q)
drain_ends grace p q before path h =
    let (stopped, steps, begun) = Reach-Stopped grace p q path h in
    let o =
      Reach-Order grace p q path (Reach-Order grace started_worker p before started_worker-Order) in
    (omega (arith, steps, steps_left_bounded p.run), progress q o stopped q.run refl)

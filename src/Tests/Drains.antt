-- ===== src/Tests/Drains.antt =====
-- A worker that is told to stop while it works on a job, and ends after it.
use transcodex.Base.{suc, ◌≤◌, ◌≡◌, ◌⊎◌, inl, refl, true, false}
use transcodex.Worker.Shutdown.{
  Process, working, returned, polling, done, started_worker, stop_seen, stop_not_seen, polled_job,
  processed, left, joined, run_step, heartbeat_ends, signalled, drained, Reach, here, next,
  draining, job_done,
}
use transcodex.Worker.Shutdown.Order.{returned-Closed, working_undisturbed}
use transcodex.Worker.Shutdown.Drain.{stopped_begins, drain_ends, run_steps, CanStep}

abbrev busy : Process
busy = record started_worker { run = working; begun = 1 }

abbrev told : Process
told = record busy { main = draining; polling_stopped = true; deadline = 30 }

abbrev over : Process
over = record told { run = done; is_beating = false; heartbeat_stopped = true; main = returned }

abbrev to_busy : Reach 30 started_worker busy
to_busy = next (next here (run_step (stop_not_seen refl refl))) (run_step (polled_job refl))

abbrev to_told : Reach 30 started_worker told
to_told = next to_busy (signalled refl)

abbrev to_over : Reach 30 told over
to_over =
    next
      (next
        (next
          (next (next (next here (run_step (processed refl))) (run_step (stop_seen refl refl)))
            (run_step (left refl)))
          (heartbeat_ends (inl refl)))
        (run_step (joined refl refl)))
      (drained refl refl)

abbrev whole : Reach 30 started_worker over
whole =
    next
      (next
        (next
          (next (next (next to_told (run_step (processed refl))) (run_step (stop_seen refl refl)))
            (run_step (left refl)))
          (heartbeat_ends (inl refl)))
        (run_step (joined refl refl)))
      (drained refl refl)

returned-Closed_example : (over.run ≡ done) × (over.is_beating ≡ false)
returned-Closed_example = returned-Closed 30 over whole refl

working_undisturbed_example :
    (told.processing_cancelled ≡ false) × (job_done told ≡ false) × (told.is_beating ≡ true)
working_undisturbed_example = working_undisturbed 30 told to_told refl (inl (λ e. absurd (cc)))

stopped_begins_example :
    (over.begun ≤ suc told.begun) × ((told.run ≡ polling) ⊎ (over.begun ≤ told.begun))
stopped_begins_example = stopped_begins 30 told over to_over refl

drain_ends_example : (run_steps 30 told over to_over ≤ 5) × ((over.run ≡ done) ⊎ CanStep over)
drain_ends_example = drain_ends 30 told over to_told to_over refl

-- ===== src/Worker/Rows.antt =====
-- The statements of Worker/Upkeep.antt, which keep the rows of an attempt and of a worker up to
-- date, keep the invariant of the tables.
use transcodex.Base.{ℕ, ◌≡◌, refl, Bool-cases, inl, inr}
use transcodex.Db.Table.{has_key}
use transcodex.Db.Schema.{Db, Attempt, Phase}
use transcodex.Db.Invariant.{Inv, workers-Inv}
use transcodex.Db.Evolves.{Keeps, workers-Evolves}
use transcodex.Db.Upkeep.{update_attempt-Keeps, update_worker-Keeps}
use transcodex.Worker.{Worker}
use transcodex.Worker.Upkeep.{
  renew_attempt_lease, DurationField, with_duration, set_attempt_phase, record_attempt_duration,
  set_worker_busy, set_worker_idle, register, heartbeat,
}

pub renew-Keeps :
    (w : Worker) (a now : ℕ) (db : Db) → Inv db → Keeps db (renew_attempt_lease w a now db)
unfolding renew_attempt_lease
renew-Keeps w a now db = update_attempt-Keeps a _ _ now db (λ y. refl) (λ y. refl) (λ y. refl)

pub register-Keeps : (w : Worker) (now : ℕ) (db : Db) → Inv db → Keeps db (register w now db)
unfolding register
register-Keeps w now db v = elim (Bool-cases (has_key w.id db.workers)) [
  | inl h ↦ rw (h, Keeps) (workers-Inv db _ v, workers-Evolves db _)
  | inr h ↦ rw (h, Keeps) (workers-Inv db _ v, workers-Evolves db _)
]

pub busy-Keeps : (w : Worker) (i now : ℕ) (db : Db) → Inv db → Keeps db (set_worker_busy w i now db)
unfolding set_worker_busy
busy-Keeps w i now db = update_worker-Keeps w.id _ now db

pub idle-Keeps : (w : Worker) (now : ℕ) (db : Db) → Inv db → Keeps db (set_worker_idle w now db)
unfolding set_worker_idle
idle-Keeps w now db = update_worker-Keeps w.id _ now db

pub beat-Keeps : (w : Worker) (now : ℕ) (db : Db) → Inv db → Keeps db (heartbeat w now db)
unfolding heartbeat
beat-Keeps w now db = update_worker-Keeps w.id _ now db

pub phase-Keeps :
    (a : ℕ) (p : Phase) (now : ℕ) (db : Db) → Inv db → Keeps db (set_attempt_phase a p now db)
unfolding set_attempt_phase
phase-Keeps a p now db = update_attempt-Keeps a _ _ now db (λ y. refl) (λ y. refl) (λ y. refl)

with_duration_keeps :
    (field : DurationField) (ms : ℕ) (y : Attempt)
    → let z = with_duration field ms y in
      (z.job_id ≡ y.job_id) × (z.attempt_number ≡ y.attempt_number) × (z.status ≡ y.status)
with_duration_keeps DurationField.download ms y = (refl, refl, refl)
with_duration_keeps DurationField.processing ms y = (refl, refl, refl)
with_duration_keeps DurationField.upload ms y = (refl, refl, refl)

pub duration-Keeps :
    (a : ℕ) (field : DurationField) (ms now : ℕ) (db : Db)
    → Inv db
    → Keeps db (record_attempt_duration a field ms now db)
unfolding record_attempt_duration
duration-Keeps a field ms now db =
    update_attempt-Keeps a _ _ now db (λ y. (with_duration_keeps field ms y).0)
      (λ y. (with_duration_keeps field ms y).1) (λ y. (with_duration_keeps field ms y).2)

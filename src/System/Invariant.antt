-- ===== src/System/Invariant.antt =====
-- What holds of the tables on every path of the system.
use transcodex.Base.{ℕ, ◌+◌, ◌≤◌, ◌≡◌, refl, true, some, arith}
use transcodex.Db.Table.{lookup}
use transcodex.Db.Schema.{Job, JobStatus, Attempt, is_running}
use transcodex.Db.Invariant.{Inv, attempts_of, tries}
use transcodex.Db.Evolves.{Evolves, Evolves-refl, Evolves-trans}
use transcodex.Db.Upkeep.{update_worker-Keeps}
use transcodex.Redis.{Redis}
use transcodex.Run.{World}
use transcodex.System.Calls.{script-Kept, lock_script-Kept, transaction-Kept, autocommit-Kept}
use transcodex.Worker.Claim.{mark_processing-Keeps}
use transcodex.Worker.Complete.{complete_job-Keeps}
use transcodex.Worker.Fail.{fail_attempt-Keeps}
use transcodex.Worker.Rows.{
  renew-Keeps, register-Keeps, busy-Keeps, idle-Keeps, beat-Keeps, phase-Keeps, duration-Keeps,
}
use transcodex.Reaper.Invariant.{requeue_job-Keeps}
use transcodex.Api.Create.{create_job-Keeps}
use transcodex.System.{Step, Reach, empty_db}

pub empty_db-Inv : Inv empty_db
empty_db-Inv = record {
  job_ok = λ i j e. absurd (cc);
  attempt_ok = λ a x e. absurd (cc);
  numbered = λ i n j e _. absurd (cc);
  orphans = λ i _. refl;
  outputs_ok = tt;
}

module _ (r : Redis) where
  step_lem : (w u : World r) → Step r w u → Inv w.db → Inv u.db × Evolves w.db u.db
  step_lem w _ (Step.create i f p m) v =
      transaction-Kept {r = r} _ (λ now db. create_job-Keeps i f p m now db) w v
  step_lem w _ (Step.claim x i a) v = transaction-Kept {r = r} _ (mark_processing-Keeps x i a) w v
  step_lem w _ (Step.complete i a os) v =
      transaction-Kept {r = r} _ (λ now db. complete_job-Keeps i a now os db) w v
  step_lem w _ (Step.fail i a cause) v =
      transaction-Kept {r = r} _ (λ now db. fail_attempt-Keeps i a now cause db) w v
  step_lem w _ (Step.renew x a) v = autocommit-Kept {r = r} _ (renew-Keeps x a) w v
  step_lem w _ (Step.phase a p) v = autocommit-Kept {r = r} _ (phase-Keeps a p) w v
  step_lem w _ (Step.duration a field ms) v =
      autocommit-Kept {r = r} _ (duration-Keeps a field ms) w v
  step_lem w _ (Step.busy x i) v = autocommit-Kept {r = r} _ (busy-Keeps x i) w v
  step_lem w _ (Step.idle x) v = autocommit-Kept {r = r} _ (idle-Keeps x) w v
  step_lem w _ (Step.start x) v = autocommit-Kept {r = r} _ (register-Keeps x) w v
  step_lem w _ (Step.beat x) v = autocommit-Kept {r = r} _ (beat-Keeps x) w v
  step_lem w _ (Step.bury x) v = autocommit-Kept {r = r} _ (update_worker-Keeps x _) w v
  step_lem w _ (Step.expire i o reason) v =
      transaction-Kept {r = r} _ (λ now db. requeue_job-Keeps i now o reason db) w v
  step_lem w _ (Step.push i p) v = script-Kept {r = r} _ w v
  step_lem w _ Step.pull v = script-Kept {r = r} _ w v
  step_lem w _ (Step.lead id ttl) v = lock_script-Kept {r = r} _ w v
  step_lem w _ (Step.stay id ttl) v = lock_script-Kept {r = r} _ w v
  step_lem w _ (Step.leave id) v = lock_script-Kept {r = r} _ w v
  step_lem w _ (Step.wait s) v = (v, Evolves-refl w.db)
  step_lem w _ (Step.meet fates) v = (v, Evolves-refl w.db)

  pub reach_lem : (w u : World r) → Reach r w u → Inv w.db → Inv u.db × Evolves w.db u.db
  reach_lem w _ Reach.here v = (v, Evolves-refl w.db)
  reach_lem w u (Reach.next {v = m} path s) v =
      let (v', e) = reach_lem w m path v in
      let (v'', e') = step_lem m u s v' in (v'', Evolves-trans w.db m.db u.db e e')

  -- From well-formed tables, every path of the system, whatever its calls meet and in whatever order
  -- the processes take their turns, leads to well-formed tables.
  pub reach-Inv : (w u : World r) → Reach r w u → Inv w.db → Inv u.db
  reach-Inv w u path v = (reach_lem w u path v).0

  -- On every path from well-formed tables no job is lost, the retries of a job only grow, a dead job
  -- stays dead, and a completed job keeps the attempt that completed it and its outputs.
  pub reach-Evolves : (w u : World r) → Reach r w u → Inv w.db → Evolves w.db u.db
  reach-Evolves w u path v = (reach_lem w u path v).1

  tries-le : (s : JobStatus) (retries : ℕ) → tries s retries ≤ retries + 1
  tries-le JobStatus.queued retries = omega arith
  tries-le JobStatus.processing retries = omega arith
  tries-le JobStatus.completed retries = omega arith
  tries-le JobStatus.dead retries = omega arith

  -- From empty tables, a job is never attempted more often than its retries allow, plus once.
  pub attempts-bounded :
      (w u : World r) (i : ℕ) (j : Job)
      → w.db ≡ empty_db
      → Reach r w u
      → lookup i u.db.jobs ≡ some j
      → attempts_of i u.db.job_attempts ≤ j.max_retries + 1
  attempts-bounded w u i j start path l =
      let o = (reach-Inv w u path (rw start empty_db-Inv)).job_ok i j l in
      omega (arith, o.tried, o.within, tries-le j.status j.retry_count)

  -- From empty tables, two attempts of one job that both run are the same attempt.
  pub running_unique :
      (w u : World r) (a b : ℕ) (x y : Attempt)
      → w.db ≡ empty_db
      → Reach r w u
      → lookup a u.db.job_attempts ≡ some x
      → lookup b u.db.job_attempts ≡ some y
      → is_running x.status ≡ true
      → is_running y.status ≡ true
      → x.job_id ≡ y.job_id
      → a ≡ b
  running_unique w u a b x y start path la lb ra rb same =
      let v = reach-Inv w u path (rw start empty_db-Inv) in
      let (j, lj, hj) = v.attempt_ok a x la in
      let (k, lk, hk) = v.attempt_ok b y lb in cc ((hj ra).1, (hk rb).1)

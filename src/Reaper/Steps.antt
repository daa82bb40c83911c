-- ===== src/Reaper/Steps.antt =====
-- A sweep follows the steps of the system, whichever of its calls fail.
use transcodex.Base.{ℕ, Bool, true, false, Option, none, some, List, [], ◌∷◌}
use transcodex.Base.Int.{ℤ}
use transcodex.Db.Schema.{Job, FailureCategory}
use transcodex.Redis.{Redis}
use transcodex.Run.{M}
use transcodex.System.{Step}
use transcodex.System.Paths.{
  Follows, call-Follows, pure-Follows, bind-Follows, attempt-Follows, read-Follows,
  read_script-Follows,
}
use transcodex.Worker.Steps.{enqueue-Follows}
use transcodex.Reaper.{Config}
use transcodex.Db.Sql.{Result, ok, err}
use transcodex.Reaper.Leadership.{lead, sweep_with_leadership}
use transcodex.Reaper.Sweep.{
  enqueue_again, requeue, for_each, requeue_current_job, bury, recover_dead_workers, expire,
  recover_orphaned_jobs, queue_contains_job, enqueue_row, enqueue_job, restore_if, restore,
  recover_missing_queue_messages, sweep,
}

module _ (r : Redis) where
  enqueue_again-Follows : (i : ℕ) (p : Option ℤ) → Follows r (enqueue_again r i p)
  unfolding enqueue_again
  enqueue_again-Follows i none = pure-Follows tt
  enqueue_again-Follows i (some p) = enqueue-Follows r i p

  pub requeue-Follows :
      (i : ℕ) (attempt_id : Option ℕ) (reason : FailureCategory)
      → Follows r (requeue r i attempt_id reason)
  unfolding requeue
  requeue-Follows i attempt_id reason =
      bind-Follows (call-Follows (λ _. Step.expire i attempt_id reason)) (enqueue_again-Follows i)

  for_each-Follows :
      {A : Type 0} (f : A → M r (Unit {0})) (xs : List A)
      → ((x : A) → Follows r (f x))
      → Follows r (for_each r f xs)
  unfolding for_each
  for_each-Follows f [] h = pure-Follows tt
  for_each-Follows f (x ∷ xs) h = bind-Follows (h x) (λ _. for_each-Follows f xs h)

  requeue_current_job-Follows : (current : Option ℕ) → Follows r (requeue_current_job r current)
  unfolding requeue_current_job
  requeue_current_job-Follows none = pure-Follows tt
  requeue_current_job-Follows (some i) = requeue-Follows i none _

  bury-Follows : (e : ℕ × Option ℕ) → Follows r (bury r e)
  unfolding bury
  bury-Follows (w, current) =
      bind-Follows (call-Follows (λ _. Step.bury w)) (λ _. requeue_current_job-Follows current)

  recover_dead_workers-Follows : (c : Config) → Follows r (recover_dead_workers r c)
  unfolding recover_dead_workers
  recover_dead_workers-Follows c =
      bind-Follows (read-Follows _) (λ dead. for_each-Follows _ dead bury-Follows)

  expire-Follows : (e : ℕ × ℕ) → Follows r (expire r e)
  unfolding expire
  expire-Follows (i, a) = requeue-Follows i (some a) _

  recover_orphaned_jobs-Follows : (c : Config) → Follows r (recover_orphaned_jobs r c)
  unfolding recover_orphaned_jobs
  recover_orphaned_jobs-Follows c =
      bind-Follows (read-Follows _) (λ expired. for_each-Follows _ expired expire-Follows)

  enqueue_row-Follows : (i : ℕ) (row : Option Job) → Follows r (enqueue_row r i row)
  unfolding enqueue_row
  enqueue_row-Follows i none = pure-Follows tt
  enqueue_row-Follows i (some j) = enqueue-Follows r i j.priority

  restore_if-Follows : (i : ℕ) (exists : Bool) → Follows r (restore_if r i exists)
  unfolding restore_if enqueue_job
  restore_if-Follows i true = pure-Follows tt
  restore_if-Follows i false = bind-Follows (read-Follows _) (enqueue_row-Follows i)

  restore-Follows : (i : ℕ) → Follows r (restore r i)
  unfolding restore queue_contains_job
  restore-Follows i = bind-Follows (read_script-Follows _) (restore_if-Follows i)

  recover_missing_queue_messages-Follows :
      (c : Config) → Follows r (recover_missing_queue_messages r c)
  unfolding recover_missing_queue_messages
  recover_missing_queue_messages-Follows c =
      bind-Follows (read-Follows _) (λ job_ids. for_each-Follows _ job_ids restore-Follows)

  pub sweep-Follows : (c : Config) → Follows r (sweep r c)
  unfolding sweep
  sweep-Follows c = bind-Follows (recover_dead_workers-Follows c) (λ _.
      bind-Follows (recover_orphaned_jobs-Follows c)
        (λ _. recover_missing_queue_messages-Follows c))

  lead-Follows : (id : ℕ) (c : Config) (locked : Result Bool) → Follows r (lead r id c locked)
  unfolding lead
  lead-Follows id c (err e) = pure-Follows tt
  lead-Follows id c (ok false) = pure-Follows tt
  lead-Follows id c (ok true) =
      bind-Follows (attempt-Follows (sweep-Follows c))
        λ _. bind-Follows (attempt-Follows (call-Follows (λ _. Step.leave id))) λ _. pure-Follows tt

  -- Whatever becomes of its calls, `sweepWithLeadership` changes the world by steps of the system and by
  -- nothing else, from the request for the lock to its release.
  pub sweep_with_leadership-Follows :
      (id : ℕ) (c : Config) → Follows r (sweep_with_leadership r id c)
  unfolding sweep_with_leadership
  sweep_with_leadership-Follows id c =
      bind-Follows (attempt-Follows (call-Follows (λ _. Step.lead id c.leadership_lock_ttl)))
        (lead-Follows id c)

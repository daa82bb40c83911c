-- ===== src/Queue.antt =====
-- pkg/queue/queue.go: the priority queue of job identifiers that the three programs share, in two
-- Lua scripts over a sorted set of tiers, a list for each tier and the set of queued jobs.
use transcodex.Base.{ℕ, Bool, true, false, ◌||◌, Option, none, some, ◌==◌, if◌then◌else◌}
use transcodex.Base.Int.{ℤ, pos, negsuc, ltb_ℤ}
use transcodex.Db.Sql.{bad_priority, queue_empty}
use transcodex.Redis.{Redis}
use transcodex.Run.{M, pure, throw, script, ◌>>=◌, ◌>>◌}
pub mod Spec
pub mod Entries
pub mod Refine

abbrev pub min_priority : ℤ
min_priority = negsuc 999

abbrev pub max_priority : ℤ
max_priority = pos 1000

-- `ValidatePriority`: is its error nil?
abbrev pub validate_priority : ℤ → Bool
validate_priority p = if ltb_ℤ p min_priority || ltb_ℤ max_priority p then false else true

module _ (r : Redis) where
  open r use {State, sadd, rpush, zadd, zrevrange_top, lpop, zrem, srem, llen}

  -- `enqueueScript`, with its reply 1 or 0
  unfoldable pub enqueue_script : ℕ → ℤ → State → Bool × State
  enqueue_script job p s =
      let (added, s') = sadd job s in if added then (true, zadd p (rpush p job s')) else (false, s')

  pop_from : ℤ → Option ℕ × State → Option ℕ × State
  pop_from tier (none, s) = (none, zrem tier s)
  pop_from tier (some job, s) =
      let s' = srem job s in (some job, if llen tier s' == 0 then zrem tier s' else s')

  -- `popScript`, with `none` for the empty reply
  unfoldable pub pop_script : State → Option ℕ × State
  unfolding pop_from
  pop_script s = elim (zrevrange_top s) [
    | none ↦ (none, s)
    | some tier ↦ pop_from tier (lpop tier s)
  ]

  -- `Enqueue`
  unfoldable pub enqueue : ℕ → ℤ → M r (Unit {0})
  enqueue job p =
      if validate_priority p
      then (do script (enqueue_script job p); pure tt)
      else throw bad_priority

  -- `Pop`
  unfoldable pub pop : M r ℕ
  pop = do value ← script pop_script; elim value [ none ↦ throw queue_empty | some job ↦ pure job ]

-- ===== src/Reaper/Refresh.antt =====
-- `refreshLeadershipUntilDone` of reaper/internal/reaper/reaper.go: the ticks of the goroutine that
-- refreshes the lock of a leader, with what all other reapers do between them.
use transcodex.Base.{
  ℕ, ◌+◌, ◌*◌, ◌/◌, ◌≤◌, ◌<◌, ◌≡◌, ◌≢◌, refl, ◌∙◌, sym, ap, Bool, true, false, Option, some, arith,
  if◌then◌else◌, ltb,
}
use transcodex.Redis.{Redis}
use transcodex.Run.{
  Lease, Fate, answered, lost, unacknowledged, World, fate, later, lock_script, settle_lock,
}
use transcodex.Reaper.Lock.{acquire, refresh, release, is_held, is_holder}
use transcodex.Reaper.Mutex.{View, acquired, refreshed, released}

-- time.Second, in nanoseconds
abbrev pub second : ℕ
second = 1000000000

-- The period of the ticker, for a time to live in nanoseconds
abbrev pub refresh_period : ℕ → ℕ
refresh_period ttl = let period = ttl / 3 in if ltb 0 period then period else second

module _ (r : Redis) (ttl : ℕ → ℕ) where
  -- What happens beside the leader: calls of other reapers on the lock key, and anything that does not
  -- touch it.
  pub data Others (id : ℕ) (v : View r ttl) : View r ttl → Type 0 where
    here : Others id v v
    lead : {u : View r ttl} (k : ℕ) → k ≢ id → Others id v u → Others id v (acquired r ttl k u)
    stay : {u : View r ttl} (k : ℕ) → k ≢ id → Others id v u → Others id v (refreshed r ttl k u)
    leave : {u : View r ttl} (k : ℕ) → k ≢ id → Others id v u → Others id v (released r ttl k u)
    other :
        {u : View r ttl} (w : World r)
        → w.lock ≡ u.world.lock
        → u.world.now ≤ w.now
        → Others id v u
        → Others id v (record u { world = w })

  -- At most a period of the ticker has passed.
  abbrev pub IsDue : ℕ → View r ttl → View r ttl → Type 0
  IsDue id u x = x.world.now * second ≤ u.world.now * second + refresh_period (ttl id * second)

  -- The goroutine: at each tick it calls `refreshLeadership`, here with an answer each time.
  pub data Refreshing (id : ℕ) (v : View r ttl) : View r ttl → Type 0 where
    begun : Refreshing id v v
    tick :
        {u : View r ttl} (x : View r ttl)
        → Refreshing id v u
        → Others id u x
        → IsDue id u x
        → fate x.world.fates ≡ answered
        → Refreshing id v (refreshed r ttl id x)

  -- The key belongs to the reaper until the time.
  abbrev Owns : ℕ → View r ttl → ℕ → Type 0
  Owns id v time = (l : Lease) × (v.world.lock ≡ some l) × (l.holder ≡ id) × (l.expires_at ≡ time)

  same_clock :
      (p : Bool × Option Lease) (f : Fate) (w : World r) → (settle_lock p f w).1.now ≡ w.now
  same_clock p answered w = refl
  same_clock p lost w = refl
  same_clock p unacknowledged w = refl

  same_lock :
      (w : World r) (f : Fate) (reply : Bool)
      → (settle_lock (reply, w.lock) f (record w { fates = later w.fates })).1.lock ≡ w.lock
  same_lock w answered reply = refl
  same_lock w lost reply = refl
  same_lock w unacknowledged reply = refl

  module _ (id k now : ℕ) (lock : Option Lease) (l : Lease) (e : lock ≡ some l)
      (mine : l.holder ≡ id) (late : now < l.expires_at) (ne : k ≢ id) where
    acquire_refused : acquire k (ttl k) now lock ≡ (false, lock)
    unfolding acquire
    acquire_refused = rw e (ground arith)

    refresh_refused : refresh k (ttl k) now lock ≡ (false, lock)
    unfolding refresh
    refresh_refused = rw e (ground arith)

    release_refused : release k now lock ≡ (false, lock)
    unfolding release
    release_refused = rw e (ground arith)

  -- No call of another reaper moves the key, as long as it has not run out; none turns back the clock.
  abbrev Leaves : ℕ → View r ttl → View r ttl → Type 0
  Leaves id v x =
      (v.world.now ≤ x.world.now)
      × ((l : Lease)
          → v.world.lock ≡ some l
          → l.holder ≡ id
          → x.world.now < l.expires_at
          → x.world.lock ≡ v.world.lock)

  refused-Leaves :
      (id : ℕ) (v u : View r ttl) (f : ℕ → Option Lease → Bool × Option Lease)
      → ((l : Lease)
          → u.world.lock ≡ some l
          → l.holder ≡ id
          → u.world.now < l.expires_at
          → f u.world.now u.world.lock ≡ (false, u.world.lock))
      → Leaves id v u
      → let x = (lock_script f u.world).1 in
        (v.world.now ≤ x.now)
        × ((l : Lease)
            → v.world.lock ≡ some l
            → l.holder ≡ id
            → x.now < l.expires_at
            → x.lock ≡ v.world.lock)
  unfolding lock_script
  refused-Leaves id v u f refused (clock, keeps) = (
    omega (arith, same, clock),
    λ l e mine late.
        let still : u.world.lock ≡ v.world.lock = keeps l e mine (omega (arith, same, late)) in
        ap (λ p. (settle_lock p (fate u.world.fates) next).1.lock)
          (refused l (still ∙ e) mine (omega (arith, same, late)))
        ∙ same_lock u.world (fate u.world.fates) false
        ∙ still,
  )
    where
      next : World r
      next = record u.world { fates = later u.world.fates }

      same :
          (settle_lock (f u.world.now u.world.lock) (fate u.world.fates) next).1.now ≡ u.world.now
      same = same_clock (f u.world.now u.world.lock) (fate u.world.fates) next

  Others-Leaves : (id : ℕ) (v x : View r ttl) → Others id v x → Leaves id v x
  Others-Leaves id v _ here = (omega arith, λ l e mine late. refl)
  Others-Leaves id v _ (lead {u} k ne path) =
      refused-Leaves id v u (acquire k (ttl k))
        (λ l e mine late. acquire_refused id k u.world.now u.world.lock l e mine late ne)
        (Others-Leaves id v u path)
  Others-Leaves id v _ (stay {u} k ne path) =
      refused-Leaves id v u (refresh k (ttl k))
        (λ l e mine late. refresh_refused id k u.world.now u.world.lock l e mine late ne)
        (Others-Leaves id v u path)
  Others-Leaves id v _ (leave {u} k ne path) =
      refused-Leaves id v u (release k)
        (λ l e mine late. release_refused id k u.world.now u.world.lock l e mine late ne)
        (Others-Leaves id v u path)
  Others-Leaves id v _ (other {u} w same clock path) =
      let (before, keeps) = Others-Leaves id v u path in
      (omega arith, λ l e mine late. same ∙ keeps l e mine (omega arith))

  period_short : (n : ℕ) → 0 < n → refresh_period (n * second) < n * second
  period_short n h = ground arith

  due_lem :
      (id : ℕ) (u x : View r ttl) → 0 < ttl id → IsDue id u x → x.world.now < u.world.now + ttl id
  due_lem id u x h due = omega (arith, period_short (ttl id) h, due)

  kept_lem :
      (id : ℕ) (u x : View r ttl)
      → 0 < ttl id
      → Owns id u (u.world.now + ttl id)
      → Others id u x
      → IsDue id u x
      → (l : Lease) × (x.world.lock ≡ some l) × (l.holder ≡ id) × (x.world.now < l.expires_at)
  kept_lem id u x h (l, e, mine, time) path due =
      let late : x.world.now < l.expires_at = omega (arith, due_lem id u x h due, time) in
      let (clock, keeps) = Others-Leaves id u x path in (l, keeps l e mine late ∙ e, mine, late)

  refreshed-Owns :
      (id : ℕ) (x : View r ttl) (l : Lease)
      → x.world.lock ≡ some l
      → l.holder ≡ id
      → x.world.now < l.expires_at
      → fate x.world.fates ≡ answered
      → Owns id (refreshed r ttl id x) ((refreshed r ttl id x).world.now + ttl id)
  unfolding lock_script refresh
  refreshed-Owns id x l e mine late a =
      let holds : is_holder id x.world.now (some l) ≡ true = ground arith in
      (
        record { holder = id; expires_at = x.world.now + ttl id },
        rw (a, e, holds) refl,
        refl,
        ap (λ n. n + ttl id)
            (sym (
              same_clock (refresh id (ttl id) x.world.now x.world.lock) (fate x.world.fates)
                (record x.world { fates = later x.world.fates }))),
      )

  Refreshing-Owns :
      (id : ℕ) (v u : View r ttl)
      → 0 < ttl id
      → Owns id v (v.world.now + ttl id)
      → Refreshing id v u
      → Owns id u (u.world.now + ttl id)
  Refreshing-Owns id v _ h own begun = own
  Refreshing-Owns id v _ h own (tick {u} x path others due a) =
      let (l, e, mine, late) = kept_lem id u x h (Refreshing-Owns id v u h own path) others due in
      refreshed-Owns id x l e mine late a

  -- A leader keeps the lock for as long as its goroutine refreshes it: from the moment at which it takes the
  -- free key, if its refreshes are answered and at most a period of the ticker, a third of the time to
  -- live, lies between two of them, then at every time up to the next the key is its own and has not
  -- run out, whatever other reapers call, and every other reaper that asks for the lock is refused.
  pub leader_kept :
      (id k : ℕ) (v u x : View r ttl)
      → 0 < ttl id
      → is_held v.world.now v.world.lock ≡ false
      → fate v.world.fates ≡ answered
      → Refreshing id (acquired r ttl id v) u
      → Others id u x
      → IsDue id u x
      → (is_holder id x.world.now x.world.lock ≡ true)
        × ((acquire k (ttl k) x.world.now x.world.lock).0 ≡ false)
  unfolding acquire lock_script
  leader_kept id k v u x h free a path others due =
      let (l, e, mine, late) =
        kept_lem id u x h (Refreshing-Owns id (acquired r ttl id v) u h taken path) others due in
      rw e (ground arith)
    where
      taken : Owns id (acquired r ttl id v) ((acquired r ttl id v).world.now + ttl id)
      taken = (
        record { holder = id; expires_at = v.world.now + ttl id },
        rw (a, free) refl,
        refl,
        rw a refl,
      )

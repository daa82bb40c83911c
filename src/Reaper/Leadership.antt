-- ===== src/Reaper/Leadership.antt =====
-- reaper/internal/reaper/reaper.go: one sweep under the leadership lock. The goroutine that refreshes
-- the lock during the sweep is a step of the system of its own.
use transcodex.Base.{ℕ, ◌≡◌, refl, Bool, true, false}
use transcodex.Db.Sql.{Result, ok, err}
use transcodex.Redis.{Redis}
use transcodex.Run.{
  M, pure, attempt, lock_script, ◌>>=◌, ◌>>◌, Fate, answered, lost, unacknowledged, World, fate,
  later, settle_lock,
}
use transcodex.Reaper.{Config}
use transcodex.Reaper.Lock.{acquire, release, is_held}
use transcodex.Reaper.Sweep.{sweep}

module _ (r : Redis) where
  -- The errors of the sweep and of the release are only logged.
  unfoldable pub lead : ℕ → Config → Result Bool → M r (Unit {0})
  lead id c (err e) = pure tt
  lead id c (ok false) = pure tt
  lead id c (ok true) = do attempt (sweep r c); attempt (lock_script (release id)); pure tt

  -- `sweepWithLeadership`
  unfoldable pub sweep_with_leadership : ℕ → Config → M r (Unit {0})
  unfolding lead
  sweep_with_leadership id c = do
    locked ← attempt (lock_script (acquire id c.leadership_lock_ttl))
    lead id c locked

  -- A reaper that finds the key held, by itself or by another, does not sweep, whatever becomes of
  -- its call: it changes neither the tables nor the queue nor the key.
  sweep_with_leadership_skips :
      (id : ℕ) (c : Config) (w : World r)
      → is_held w.now w.lock ≡ true
      → let u = (sweep_with_leadership id c w).1 in
        (u.db ≡ w.db) × (u.cache ≡ w.cache) × (u.lock ≡ w.lock)
  unfolding sweep_with_leadership lock_script acquire attempt ◌>>=◌ lead pure
  sweep_with_leadership_skips id c w held = rw held (skipped (fate w.fates))
    where
      skipped :
          (f : Fate)
          → let (res, v) = settle_lock (false, w.lock) f (record w { fates = later w.fates }) in
            let u = (lead id c res v).1 in (u.db ≡ w.db) × (u.cache ≡ w.cache) × (u.lock ≡ w.lock)
      skipped answered = (refl, refl, refl)
      skipped lost = (refl, refl, refl)
      skipped unacknowledged = (refl, refl, refl)

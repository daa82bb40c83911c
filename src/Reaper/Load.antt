-- ===== src/Reaper/Load.antt =====
-- `LoadConfig` of reaper/internal/reaper/config.go.
use transcodex.Base.{◌*◌, ◌≡◌, refl, inl, inr, true, not, arith, Bool-cases, if◌then◌else◌}
use transcodex.Base.Int.{ℤ, pos, negsuc, ltb_ℤ, ◌≤ℤ◌}
use transcodex.Base.Text.{codes}
use transcodex.Db.Schema.{Text}
use transcodex.Env.{Environment, env_seconds, double, second}
use transcodex.Env.Seconds.{wrap_small}

-- `Config`, with each duration in nanoseconds
pub record Settings : Type 0 where
  pub database_url : Text
  pub redis_url : Text
  pub sweep_interval : ℤ
  pub leadership_lock_ttl : ℤ
  pub dead_worker_threshold : ℤ
  pub lease_expiry_grace : ℤ
  pub stale_queue_threshold : ℤ

-- The lock outlives a sweep's interval.
abbrev pub lock_ttl : ℤ → ℤ → ℤ
lock_ttl ttl interval = if not (ltb_ℤ interval ttl) then double interval else ttl

-- `LoadConfig`
unfoldable pub load_config : Environment → Settings
load_config e =
    let interval = env_seconds e (codes "REAPER_SWEEP_INTERVAL") (pos (30 * second)) in
    let ttl = env_seconds e (codes "REAPER_LEADERSHIP_LOCK_TTL_SECONDS") (pos (60 * second)) in
    record {
      database_url = e (codes "DATABASE_URL");
      redis_url = e (codes "REDIS_URL");
      sweep_interval = interval;
      leadership_lock_ttl = lock_ttl ttl interval;
      dead_worker_threshold =
          env_seconds e (codes "REAPER_DEAD_WORKER_THRESHOLD_SECONDS") (pos (30 * second));
      lease_expiry_grace = env_seconds e (codes "REAPER_LEASE_EXPIRY_GRACE_SECONDS") (pos 0);
      stale_queue_threshold =
          env_seconds e (codes "REAPER_STALE_QUEUE_THRESHOLD_SECONDS") (pos (30 * second));
    }

lock_ttl-longer :
    (ttl interval : ℤ)
    → pos 1 ≤ℤ interval
    → interval ≤ℤ pos 4611686018427387903
    → ltb_ℤ interval (lock_ttl ttl interval) ≡ true
lock_ttl-longer ttl (negsuc n) low high = absurd (omega (arith, low))
lock_ttl-longer ttl (pos n) low high = elim (Bool-cases (ltb_ℤ (pos n) ttl)) [
  | inl longer ↦ rw (longer, longer) refl
  | inr shorter ↦ rw (shorter, wrap_small (n * 2) (omega (arith, high))) (ground arith)
]

-- Whatever the time to live that is configured, the lock that is loaded outlives the interval
-- between sweeps, where that interval is positive and its double is a duration.
load_config-longer :
    (e : Environment)
    → pos 1 ≤ℤ (load_config e).sweep_interval
    → (load_config e).sweep_interval ≤ℤ pos 4611686018427387903
    → ltb_ℤ (load_config e).sweep_interval (load_config e).leadership_lock_ttl ≡ true
unfolding load_config
load_config-longer e low high = lock_ttl-longer _ _ low high

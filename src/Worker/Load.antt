-- ===== src/Worker/Load.antt =====
-- `LoadConfig` and `loadProcessingMode` of worker/internal/worker/config.go.
use transcodex.Base.{ℕ, ◌*◌, ◌≤◌, ◌≡◌, refl, false, some, arith, if◌then◌else◌, [], ◌∷◌}
use transcodex.Base.Int.{ℤ, pos, ◌≤ℤ◌}
use transcodex.Base.Text.{codes, same_text, atoi}
use transcodex.Db.Schema.{Text, ProcessingMode}
use transcodex.Env.{
  Environment, env, is_empty, env_int, env_seconds, trim_right, trim_slashes, is_slash, second,
}
use transcodex.Env.Seconds.{env_seconds-positive}

-- `Config`, with each duration in nanoseconds
pub record Settings : Type 0 where
  pub database_url : Text
  pub redis_url : Text
  pub storage_endpoint : Text
  pub storage_bucket : Text
  pub storage_access_key : Text
  pub storage_secret_key : Text
  pub cdn_base_url : Text
  pub temp_dir : Text
  pub output_prefix : Text
  pub output_cache_control : Text
  pub ffmpeg_path : Text
  pub processing_mode : ProcessingMode
  pub heartbeat_interval : ℤ
  pub lease_ttl : ℤ
  pub poll_backoff : ℤ
  pub shutdown_grace_period : ℤ
  pub worker_max_retries : ℤ

-- `processingModeParallel` and `processingModeSequential`
abbrev pub mode_text : ProcessingMode → Text
mode_text ProcessingMode.parallel = codes "parallel"
mode_text ProcessingMode.sequential = codes "sequential"

-- `defaultProcessingMode` for any other text
abbrev pub read_mode : Text → ProcessingMode
read_mode t =
    if same_text t (mode_text ProcessingMode.sequential)
    then ProcessingMode.sequential
    else ProcessingMode.parallel

unfoldable pub load_processing_mode : Environment → ProcessingMode
load_processing_mode e =
    read_mode (env e (codes "WORKER_PROCESSING_MODE") (mode_text ProcessingMode.parallel))

other_mode :
    (t : Text)
    → same_text t (mode_text ProcessingMode.sequential) ≡ false
    → read_mode (if is_empty t then mode_text ProcessingMode.parallel else t)
      ≡ ProcessingMode.parallel
other_mode [] h = refl
other_mode (c ∷ cs) h = rw h refl

-- `LoadConfig`
unfoldable pub load_config : Environment → Settings
load_config e = record {
  database_url = e (codes "DATABASE_URL");
  redis_url = e (codes "REDIS_URL");
  storage_endpoint = e (codes "STORAGE_ENDPOINT");
  storage_bucket = e (codes "STORAGE_BUCKET");
  storage_access_key = e (codes "STORAGE_ACCESS_KEY");
  storage_secret_key = e (codes "STORAGE_SECRET_KEY");
  cdn_base_url = trim_right is_slash (e (codes "CDN_BASE_URL"));
  temp_dir = env e (codes "WORKER_TEMP_DIR") [];
  output_prefix = trim_slashes (env e (codes "OUTPUT_PREFIX") (codes "outputs"));
  output_cache_control =
      env e (codes "OUTPUT_CACHE_CONTROL") (codes "public, max-age=86400, immutable");
  ffmpeg_path = env e (codes "FFMPEG_PATH") (codes "ffmpeg");
  processing_mode = load_processing_mode e;
  heartbeat_interval = env_seconds e (codes "WORKER_HEARTBEAT_INTERVAL") (pos (10 * second));
  lease_ttl = env_seconds e (codes "WORKER_LEASE_TTL_SECONDS") (pos (300 * second));
  poll_backoff = env_seconds e (codes "WORKER_POLL_BACKOFF_SECONDS") (pos (2 * second));
  shutdown_grace_period = env_seconds e (codes "WORKER_SHUTDOWN_GRACE_SECONDS") (pos (30 * second));
  worker_max_retries = env_int e (codes "WORKER_MAX_RETRIES") (pos 3);
}

-- Every duration that the worker loads is positive, as its tickers demand, where no variable holds a
-- number of seconds beyond what a duration can hold; each of the two modes is read as itself, and any
-- text that is not the sequential mode as parallel.
pub load_config-positive :
    (e : Environment)
    → ((key : Text) (n : ℕ) → atoi (e key) ≡ some (pos n) → n ≤ 9223372036)
    → let s = load_config e in
      (pos 1 ≤ℤ s.heartbeat_interval)
      × (pos 1 ≤ℤ s.lease_ttl)
      × (pos 1 ≤ℤ s.poll_backoff)
      × (pos 1 ≤ℤ s.shutdown_grace_period)
      × ((m : ProcessingMode)
          → e (codes "WORKER_PROCESSING_MODE") ≡ mode_text m
          → s.processing_mode ≡ m)
      × (same_text (e (codes "WORKER_PROCESSING_MODE")) (mode_text ProcessingMode.sequential)
            ≡ false
          → s.processing_mode ≡ ProcessingMode.parallel)
unfolding load_config load_processing_mode
load_config-positive e small = (
  env_seconds-positive e _ _ (omega arith) (small _),
  env_seconds-positive e _ _ (omega arith) (small _),
  env_seconds-positive e _ _ (omega arith) (small _),
  env_seconds-positive e _ _ (omega arith) (small _),
  read_back,
  other,
)
  where
    read_back :
        (m : ProcessingMode)
        → e (codes "WORKER_PROCESSING_MODE") ≡ mode_text m
        → load_processing_mode e ≡ m
    read_back ProcessingMode.parallel h = rw h refl
    read_back ProcessingMode.sequential h = rw h refl

    other :
        same_text (e (codes "WORKER_PROCESSING_MODE")) (mode_text ProcessingMode.sequential) ≡ false
        → load_processing_mode e ≡ ProcessingMode.parallel
    other h = other_mode (e (codes "WORKER_PROCESSING_MODE")) h

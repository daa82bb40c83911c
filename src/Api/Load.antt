-- ===== src/Api/Load.antt =====
-- `LoadConfig` of api/internal/server/config.go.
use transcodex.Base.{◌*◌, List, [], ◌∷◌}
use transcodex.Base.Int.{ℤ, pos}
use transcodex.Base.Text.{codes}
use transcodex.Db.Schema.{Text}
use transcodex.Env.{
  Environment, env, env_int, env_seconds, env_list, trim_right, trim_slashes, is_slash, second,
}

-- `Config`, with each duration in nanoseconds
pub record Settings : Type 0 where
  pub addr : Text
  pub database_url : Text
  pub redis_url : Text
  pub storage_endpoint : Text
  pub storage_bucket : Text
  pub storage_access_key : Text
  pub storage_secret_key : Text
  pub cdn_base_url : Text
  pub upload_prefix : Text
  pub upload_size_limit : ℤ
  pub worker_max_retries : ℤ
  pub stats_stream_period : ℤ
  pub read_header_timeout : ℤ
  pub shutdown_timeout : ℤ
  pub cors_allowed_origins : List Text

abbrev pub default_origins : List Text
default_origins =
    codes "http://localhost:3000"
    ∷ codes "http://127.0.0.1:3000"
    ∷ codes "http://localhost:3001"
    ∷ codes "http://127.0.0.1:3001"
    ∷ codes "http://localhost:5173"
    ∷ codes "http://127.0.0.1:5173"
    ∷ []

-- `LoadConfig`
unfoldable pub load_config : Environment → Settings
load_config e = record {
  addr = env e (codes "API_ADDR") (codes ":8080");
  database_url = e (codes "DATABASE_URL");
  redis_url = e (codes "REDIS_URL");
  storage_endpoint = e (codes "STORAGE_ENDPOINT");
  storage_bucket = e (codes "STORAGE_BUCKET");
  storage_access_key = e (codes "STORAGE_ACCESS_KEY");
  storage_secret_key = e (codes "STORAGE_SECRET_KEY");
  cdn_base_url = trim_right is_slash (e (codes "CDN_BASE_URL"));
  upload_prefix = trim_slashes (env e (codes "UPLOAD_PREFIX") (codes "raw"));
  upload_size_limit = env_int e (codes "UPLOAD_SIZE_LIMIT_BYTES") (pos 524288000);
  worker_max_retries = env_int e (codes "WORKER_MAX_RETRIES") (pos 3);
  stats_stream_period = env_seconds e (codes "STATS_STREAM_INTERVAL_SECONDS") (pos (5 * second));
  read_header_timeout = env_seconds e (codes "API_READ_HEADER_TIMEOUT_SECONDS") (pos (10 * second));
  shutdown_timeout = env_seconds e (codes "API_SHUTDOWN_TIMEOUT_SECONDS") (pos (10 * second));
  cors_allowed_origins = env_list e (codes "CORS_ALLOWED_ORIGINS") default_origins;
}

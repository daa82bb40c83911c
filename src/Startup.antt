-- ===== src/Startup.antt =====
-- How the programs open their connections: `New` and `Close` of the worker, the reaper and the API
-- server, over pkg/postgres, pkg/redis and pkg/storage. The connections that are open are listed, the
-- latest first; what the client libraries and the servers answer is a parameter.
use transcodex.Base.{
  ℕ, Bool, true, false, not, ◌&&◌, ◌||◌, Option, none, some, List, [], ◌∷◌, if◌then◌else◌,
}
use transcodex.Db.Schema.{Text}
use transcodex.Env.{is_empty}
pub mod Storage
pub mod Programs
pub mod Closing

-- A pool of PostgreSQL connections, or a Redis client
pub data Connection : Type 0 where
  pool client : Connection

pub data StartError : Type 0 where
  database_url_missing database_url_invalid pool_refused database_silent : StartError
  redis_url_missing redis_url_invalid redis_silent : StartError
  endpoint_missing bucket_missing endpoint_invalid host_missing scheme_unsupported : StartError
  access_key_missing secret_key_missing storage_refused bucket_unchecked bucket_absent : StartError
  registration_failed : StartError

pub data Outcome (A : Type 0) : Type 0 where
  opened : A → Outcome A
  failed : StartError → Outcome A

-- What `url.Parse` finds
pub record Url : Type 0 where
  pub scheme : Text
  pub host : Text

-- The answers of pgxpool, go-redis, net/url and minio, and of the INSERT of `register`
pub record Services : Type 0 where
  pub parses_database_url : Text → Bool
  pub creates_pool : Text → Bool
  pub pings_database : Text → Bool
  pub parses_redis_url : Text → Bool
  pub pings_redis : Text → Bool
  pub parse_url : Text → Option Url
  pub creates_storage : Text → Bool → Bool
  pub bucket_exists : Text → Option Bool
  pub registers : Bool

-- `Close` of one connection: it is dropped from the list.
abbrev pub same_connection : Connection → Connection → Bool
same_connection pool pool = true
same_connection client client = true
same_connection _ _ = false

abbrev pub close : Connection → List Connection → List Connection
close c [] = []
close c (d ∷ open') = let rest = close c open' in if same_connection c d then open' else d ∷ rest

module _ (s : Services) where
  -- `postgres.NewPool`
  unfoldable pub new_pool : Text → List Connection → Outcome Connection × List Connection
  new_pool url live =
      if is_empty url
      then (failed database_url_missing, live)
      else if not (s.parses_database_url url)
      then (failed database_url_invalid, live)
      else if not (s.creates_pool url)
      then (failed pool_refused, live)
      else if not (s.pings_database url)
      then (failed database_silent, close pool (pool ∷ live))
      else (opened pool, pool ∷ live)

  -- `redis.NewClient`
  unfoldable pub new_redis : Text → List Connection → Outcome Connection × List Connection
  new_redis url live =
      if is_empty url
      then (failed redis_url_missing, live)
      else if not (s.parses_redis_url url)
      then (failed redis_url_invalid, live)
      else if not (s.pings_redis url)
      then (failed redis_silent, close client (client ∷ live))
      else (opened client, client ∷ live)

-- ===== src/Startup/Programs.antt =====
-- `New` and `Close` of worker/internal/worker/worker.go, reaper/internal/reaper/reaper.go and
-- api/internal/server/server.go.
use transcodex.Base.{List, if◌then◌else◌}
use transcodex.Db.Schema.{Text}
use transcodex.Env.{is_empty}
use transcodex.Startup.{
  Connection, pool, client, Services, Outcome, opened, failed, close, new_pool, new_redis,
  database_url_missing, redis_url_missing, registration_failed,
}
use transcodex.Startup.Storage.{StorageConfig, Client, new_storage}

-- `Close`, which is the same in the three programs
abbrev pub close_all : List Connection → List Connection
close_all live = close pool (close client live)

module _ (s : Services) where
  abbrev pub after_storage : Outcome Client → List Connection → Outcome Client × List Connection
  after_storage (failed e) live = (failed e, close pool (close client live))
  after_storage (opened k) live = (opened k, live)

  abbrev pub after_redis :
      StorageConfig → Outcome Connection × List Connection → Outcome Client × List Connection
  after_redis c (failed e, live) = (failed e, close pool live)
  after_redis c (opened _, live) = after_storage (new_storage s c) live

  abbrev pub after_pool :
      Text → StorageConfig → Outcome Connection × List Connection → Outcome Client × List Connection
  after_pool redis_url c (failed e, live) = (failed e, live)
  after_pool redis_url c (opened _, live) = after_redis c (new_redis s redis_url live)

  -- `New` of the API server
  unfoldable pub new_server :
      Text → Text → StorageConfig → List Connection → Outcome Client × List Connection
  new_server database_url redis_url c live = after_pool redis_url c (new_pool s database_url live)

  abbrev pub after_register : Outcome Client × List Connection → Outcome Client × List Connection
  after_register (failed e, live) = (failed e, live)
  after_register (opened k, live) =
      if s.registers then (opened k, live) else (failed registration_failed, close_all live)

  -- `New` of the worker: the steps of the server's, then `register`
  unfoldable pub new_worker :
      Text → Text → StorageConfig → List Connection → Outcome Client × List Connection
  new_worker database_url redis_url c live =
      after_register (after_pool redis_url c (new_pool s database_url live))

  abbrev pub reaper_redis :
      Outcome Connection × List Connection → Outcome Connection × List Connection
  reaper_redis (failed e, live) = (failed e, close pool live)
  reaper_redis (opened k, live) = (opened k, live)

  abbrev pub reaper_pool :
      Text → Outcome Connection × List Connection → Outcome Connection × List Connection
  reaper_pool redis_url (failed e, live) = (failed e, live)
  reaper_pool redis_url (opened _, live) = reaper_redis (new_redis s redis_url live)

  -- `New` of the reaper
  unfoldable pub new_reaper : Text → Text → List Connection → Outcome Connection × List Connection
  new_reaper database_url redis_url live =
      if is_empty database_url
      then (failed database_url_missing, live)
      else if is_empty redis_url
      then (failed redis_url_missing, live)
      else reaper_pool redis_url (new_pool s database_url live)

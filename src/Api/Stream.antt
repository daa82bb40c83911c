-- ===== src/Api/Stream.antt =====
-- `streamStats` and `writeStatsEvent` of api/internal/server/handlers.go.
use transcodex.Base.{ℕ, Bool, true, false, List, [], ◌∷◌}
use transcodex.Db.Sql.{ok, err}
use transcodex.Db.Postgres.{Postgres}
use transcodex.Redis.{Redis}
use transcodex.Run.{M, pure, attempt, external, sleep, ◌>>=◌, ◌>>◌}
use transcodex.Api.Stats.{Stats, collect_stats}

-- What the client receives: a reply of 500, or events
pub data Streamed : Type 0 where
  unsupported : Streamed
  events : List Stats → Streamed

module _ (pg : Postgres) (r : Redis) (scard : r.State → ℕ) where
  -- `writeStatsEvent`, with the statistics that it has written; json.Marshal does not fail on them
  unfoldable pub write_stats_event : M r Stats
  write_stats_event = do stats ← collect_stats pg r scard; external; pure stats

  -- The loop, by the seconds before each tick that comes before the request's context is done
  unfoldable pub send_events : List ℕ → M r (List Stats)
  unfolding write_stats_event
  send_events [] = attempt write_stats_event >>= λ res. elim res [
    | ok stats ↦ pure (stats ∷ [])
    | err e ↦ pure []
  ]
  send_events (seconds ∷ ticks) = attempt write_stats_event >>= λ res. elim res [
    | ok stats ↦ sleep seconds >> send_events ticks >>= λ rest. pure (stats ∷ rest)
    | err e ↦ pure []
  ]

  -- `streamStats`, of a writer that is an http.Flusher or is not
  unfoldable pub stream_stats : Bool → List ℕ → M r Streamed
  unfolding send_events
  stream_stats false ticks = pure unsupported
  stream_stats true ticks = do sent ← send_events ticks; pure (events sent)

-- ===== src/Reaper/Loop.antt =====
-- The loop of `Run` in reaper/internal/reaper/reaper.go: it ends when its context is done, after any
-- number of rounds.
use transcodex.Base.{ℕ, zero, suc}
use transcodex.Redis.{Redis}
use transcodex.Run.{M, pure, sleep, ◌>>◌}
use transcodex.System.Paths.{Follows, pure-Follows, bind-Follows, sleep-Follows}
use transcodex.Reaper.{Config}
use transcodex.Reaper.Leadership.{sweep_with_leadership}
use transcodex.Reaper.Steps.{sweep_with_leadership-Follows}

module _ (r : Redis) where
  -- `Run`, with the reaper's identifier
  unfoldable pub run : ℕ → Config → ℕ → M r (Unit {0})
  run id c zero = pure tt
  run id c (suc rounds) = do sweep_with_leadership r id c; sleep c.sweep_interval; run id c rounds

  run-Follows : (id : ℕ) (c : Config) (rounds : ℕ) → Follows r (run id c rounds)
  unfolding run
  run-Follows id c zero = pure-Follows tt
  run-Follows id c (suc rounds) =
      bind-Follows (sweep_with_leadership-Follows r id c)
        λ _. bind-Follows (sleep-Follows c.sweep_interval) λ _. run-Follows id c rounds

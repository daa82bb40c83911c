-- ===== src/Worker/Loop.antt =====
-- The loop of `Run` in worker/internal/worker/worker.go. Each round is given by what it meets; the
-- loop ends when stopPollingCtx is done, which is where the list of its rounds ends.
use transcodex.Base.{ℕ, List, [], ◌∷◌}
use transcodex.Db.Schema.{Text}
use transcodex.Redis.{Redis}
use transcodex.Run.{M, pure, sleep, ◌>>◌}
use transcodex.System.Paths.{Follows, pure-Follows, bind-Follows, sleep-Follows}
use transcodex.Worker.{Worker, Surroundings}
use transcodex.Worker.Process.{run_round}
use transcodex.Worker.Steps.{run_round-Follows}

-- What a round meets: the surroundings of its job, the identifier that uuid.NewString makes, the
-- text of an error, and the seconds that it takes, the backoff of `sleepOrDone` included.
pub record Round : Type 0 where
  pub surroundings : Surroundings
  pub fresh_id : ℕ
  pub cause : Text
  pub seconds : ℕ

module _ (r : Redis) where
  -- `Run`
  unfoldable pub run : Worker → List Round → M r (Unit {0})
  run w [] = pure tt
  run w (round ∷ rounds) = do
    run_round r w round.surroundings round.fresh_id round.cause
    sleep round.seconds
    run w rounds

  -- The loop of a worker, whatever its rounds meet and whichever of its calls fail or lose their answer,
  -- changes the world by steps of the system and by nothing else.
  run-Follows : (w : Worker) (rounds : List Round) → Follows r (run w rounds)
  unfolding run
  run-Follows w [] = pure-Follows tt
  run-Follows w (round ∷ rounds) =
      bind-Follows (run_round-Follows r w round.surroundings round.fresh_id round.cause)
        λ _. bind-Follows (sleep-Follows round.seconds) λ _. run-Follows w rounds

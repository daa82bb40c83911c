-- ===== src/System/Paths.antt =====
-- An action follows the system's steps if, whatever becomes of its calls, it is a path of them.
-- Such actions are closed under composition, so a handler follows the steps if its calls do.
use transcodex.Base.{ℕ}
use transcodex.Db.Schema.{Db}
use transcodex.Db.Sql.{Error, Result, ok, err}
use transcodex.Redis.{Redis}
use transcodex.Run.{
  Fate, answered, lost, unacknowledged, World, fate, later, M, pure, throw, transaction, autocommit,
  settle, settle_script, script, attempt, external, sleep, ◌>>=◌,
}
use transcodex.Db.Sql.{commit}
use transcodex.System.{Step, Reach}

pub record Follows (r : Redis) {A : Type 0} (m : M r A) : Type 0 where
  pub path : (w : World r) → Reach r w (m w).1

module _ {r : Redis} where
  pub Reach-trans : {w v u : World r} → Reach r w v → Reach r v u → Reach r w u
  Reach-trans p Reach.here = p
  Reach-trans p (Reach.next q s) = Reach.next (Reach-trans p q) s

  -- A call is a step.
  pub call-Follows : {A : Type 0} {m : M r A} → ((w : World r) → Step r w (m w).1) → Follows r m
  call-Follows s = record { path = λ w. Reach.next Reach.here (s w) }

  pub pure-Follows : {A : Type 0} (a : A) → Follows r (pure a)
  unfolding pure
  pure-Follows a = record { path = λ w. Reach.here }

  pub throw-Follows : {A : Type 0} (e : Error) → Follows r (throw {A = A} e)
  unfolding throw
  throw-Follows e = record { path = λ w. Reach.here }

  pub bind-Follows :
      {A B : Type 0} {m : M r A} {f : A → M r B}
      → Follows r m
      → ((a : A) → Follows r (f a))
      → Follows r (m >>= f)
  unfolding ◌>>=◌
  bind-Follows {A} {B} {m} {f} hm hf = record { path = λ w. go w (m w).0 (m w).1 (hm.path w) }
    where
      go :
          (w : World r) (res : Result A) (v : World r)
          → Reach r w v
          → let out : Result B × World r = elim res [ ok a ↦ f a v | err e ↦ (err e, v) ] in
            Reach r w out.1
      go w (ok a) v p = Reach-trans p ((hf a).path v)
      go w (err e) v p = p

  pub attempt-Follows : {A : Type 0} {m : M r A} → Follows r m → Follows r (attempt m)
  unfolding attempt
  attempt-Follows h = record { path = h.path }

  pub external-Follows : Follows r external
  unfolding external
  external-Follows = call-Follows (λ w. Step.meet (later w.fates))

  pub sleep-Follows : (seconds : ℕ) → Follows r (sleep seconds)
  unfolding sleep
  sleep-Follows seconds = call-Follows (λ w. Step.wait seconds)

  -- A command that only reads uses up the fate of its call.
  pub read_script-Follows : {A : Type 0} (f : r.State → A) → Follows r (script (λ s. (f s, s)))
  unfolding script
  read_script-Follows {A} f = record { path = λ w. go w (fate w.fates) }
    where
      go :
          (w : World r) (t : Fate)
          → Reach r w (settle_script (f w.cache, w.cache) t (record w { fates = later w.fates })).1
      go w answered = Reach.next Reach.here (Step.meet (later w.fates))
      go w lost = Reach.next Reach.here (Step.meet (later w.fates))
      go w unacknowledged = Reach.next Reach.here (Step.meet (later w.fates))

  -- So does a SELECT.
  pub read-Follows :
      {A : Type 0} (f : ℕ → Db → A) → Follows r (autocommit (λ now db. ok (f now db, db)))
  unfolding autocommit transaction
  read-Follows {A} f = record { path = λ w. go w (fate w.fates) }
    where
      go :
          (w : World r) (t : Fate)
          → Reach r w (settle (commit (f w.now w.db)) w.db t (record w { fates = later w.fates })).1
      go w answered = Reach.next Reach.here (Step.meet (later w.fates))
      go w lost = Reach.next Reach.here (Step.meet (later w.fates))
      go w unacknowledged = Reach.next Reach.here (Step.meet (later w.fates))

pub ruleset paths = (pure-Follows, throw-Follows, bind-Follows, attempt-Follows, external-Follows)

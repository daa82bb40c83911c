-- ===== src/Worker/Renewal.antt =====
-- The loops beside the work of worker/internal/worker: `renewLeaseUntilDone` of processor.go and
-- `runHeartbeat` of worker.go. A loop runs for the ticks before its context is done; what other
-- processes do between two ticks are steps of theirs.
use transcodex.Base.{
  ℕ, zero, suc, ◌+◌, ◌≤◌, ◌≡◌, refl, ap, ◌∙◌, Bool, true, false, ◌&&◌, some, arith, ◌==◌,
}
use transcodex.Db.Table.{lookup, lookup-modify_self}
use transcodex.Db.Schema.{Attempt, Db, is_running}
use transcodex.Db.Sql.{Result, ok, err}
use transcodex.Db.Statements.{accepts, update_attempt}
use transcodex.Db.Effects.{update_attempt_miss}
use transcodex.Redis.{Redis}
use transcodex.Run.{
  M, World, Fate, answered, lost, unacknowledged, calm, fate, later, settle, pure, attempt,
  autocommit, transaction, ◌>>=◌, ◌>>◌, bind-then,
}
use transcodex.Db.Sql.{Sql, commit}
use transcodex.Worker.{Worker}
use transcodex.Worker.Transactions.{holds}
use transcodex.Worker.Upkeep.{renew_attempt_lease, heartbeat}
use transcodex.Reaper
use transcodex.Reaper.Transactions.{is_expired}

-- err == nil && updated
abbrev pub is_renewed : Result ℕ → Bool
is_renewed (ok n) = n == 1
is_renewed (err e) = false

module _ (r : Redis) where
  -- One tick: false where the context of the job is cancelled
  unfoldable pub renew_tick : Worker → ℕ → M r Bool
  renew_tick v attempt_id = do
    updated ← attempt (autocommit (renew_attempt_lease v attempt_id))
    pure (is_renewed updated)

  -- `renewLeaseUntilDone`: false where it cancels the context, true where the context was done before
  unfoldable pub renew_lease_until_done : Worker → ℕ → ℕ → M r Bool
  renew_lease_until_done v attempt_id zero = pure true
  renew_lease_until_done v attempt_id (suc ticks) = renew_tick v attempt_id >>= λ on. elim on [
    | true ↦ renew_lease_until_done v attempt_id ticks
    | false ↦ pure false
  ]

  -- The ticks of `runHeartbeat`, whose errors are only logged
  unfoldable pub beats : Worker → ℕ → M r (Unit {0})
  beats v zero = pure tt
  beats v (suc ticks) = do attempt (autocommit (heartbeat v)); beats v ticks

  -- `runHeartbeat`: at once, and then at each tick
  unfoldable pub run_heartbeat : Worker → ℕ → M r (Unit {0})
  run_heartbeat v ticks = do attempt (autocommit (heartbeat v)); beats v ticks

  missed :
      (f : Fate) (w : World r)
      → let (res, u) = settle {A = ℕ} (commit 0) w.db f (record w { fates = later w.fates }) in
        (is_renewed res ≡ false) × (u.db ≡ w.db)
  missed answered w = (refl, refl)
  missed lost w = (refl, refl)
  missed unacknowledged w = (refl, refl)

  renew_attempt_lease_miss :
      (v : Worker) (a now : ℕ) (db : Db)
      → accepts
          (λ x. is_running x.status && accepts (holds a) (lookup x.job_id db.jobs))
          (lookup a db.job_attempts)
        ≡ false
      → renew_attempt_lease v a now db ≡ ok (0, db)
  unfolding renew_attempt_lease
  renew_attempt_lease_miss v a now db ended = update_attempt_miss a _ _ now db ended

  autocommit_settles :
      (s : Sql ℕ) (db : Db) (n : ℕ) (w : World r)
      → s w.now w.db ≡ ok (n, db)
      → autocommit s w ≡ settle (commit n) db (fate w.fates) (record w { fates = later w.fates })
  unfolding autocommit transaction
  autocommit_settles s db n w e = rw e refl

  renew_tick-missed :
      (v : Worker) (a : ℕ) (w : World r)
      → accepts
          (λ x. is_running x.status && accepts (holds a) (lookup x.job_id w.db.jobs))
          (lookup a w.db.job_attempts)
        ≡ false
      → (u : World r) × (renew_tick v a w ≡ (ok false, u)) × (u.db ≡ w.db)
  unfolding renew_tick attempt pure ◌>>=◌
  renew_tick-missed v a w ended =
      let none_hit : renew_attempt_lease v a w.now w.db ≡ ok (0, w.db) =
        renew_attempt_lease_miss v a w.now w.db ended in
      let next = record w { fates = later w.fates } in
      let call : autocommit (renew_attempt_lease v a) w
          ≡ settle {A = ℕ} (commit 0) w.db (fate w.fates) next =
        autocommit_settles _ w.db 0 w none_hit in
      let (e, same) = missed (fate w.fates) w in
      (
        (settle {A = ℕ} (commit 0) w.db (fate w.fates) next).1,
        ap (λ p. (ok (is_renewed p.0), p.1)) call
            ∙ ap (λ on. (ok on, (settle {A = ℕ} (commit 0) w.db (fate w.fates) next).1)) e,
        same,
      )

  -- An attempt that is no longer running, or no longer the current attempt of a job that is being
  -- processed, is not renewed: whatever becomes of the call, `renewLeaseUntilDone` cancels the job's
  -- context at its next tick, and changes no table.
  pub renew_lease_cancels :
      (v : Worker) (a ticks : ℕ) (w : World r)
      → accepts
          (λ x. is_running x.status && accepts (holds a) (lookup x.job_id w.db.jobs))
          (lookup a w.db.job_attempts)
        ≡ false
      → let out = renew_lease_until_done v a (suc ticks) w in (out.0 ≡ ok false) × (out.1.db ≡ w.db)
  unfolding renew_lease_until_done pure
  renew_lease_cancels v a ticks w ended =
      let (u, e, same) = renew_tick-missed v a w ended in
      let all : renew_lease_until_done v a (suc ticks) w ≡ (ok false, u) = bind-then _ _ e refl in
      (ap (λ p. p.0) all, ap (λ p. p.1.db) all ∙ same)

  -- A tick that is answered while the attempt holds its job protects it: the reaper's query for
  -- expired leases does not list the attempt until the time to live and the grace have passed.
  pub renew_tick_protects :
      (v : Worker) (a : ℕ) (db : Db) (now : ℕ) (c : r.State) (x : Attempt) (config : Reaper.Config)
      → lookup a db.job_attempts ≡ some x
      → (is_running x.status && accepts (holds a) (lookup x.job_id db.jobs)) ≡ true
      → let out = renew_tick v a (calm db now c) in
        (out.0 ≡ ok true)
        × ((y : Attempt) × (lookup a out.1.db.job_attempts ≡ some y)
            × ((t : ℕ)
                → t ≤ now + v.config.lease_ttl + config.lease_expiry_grace
                → is_expired config t (a, y) ≡ false))
  unfolding renew_tick attempt autocommit transaction pure ◌>>=◌ renew_attempt_lease update_attempt
  renew_tick_protects v a db now c x config l held =
      rw (l, held) (refl, (_, lookup-modify_self a _ db.job_attempts x l, λ t h. ground arith))

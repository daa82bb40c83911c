-- ===== src/Reaper/Expiry.antt =====
-- What the reaper's second pass achieves: every attempt whose lease has expired is ended.
use transcodex.Base.{
  ℕ, ◌≡◌, ◌≢◌, refl, sym, ap, subst, inl, inr, true, false, Option, none, some, List, [], ◌∷◌, All,
  filter, map, Bool-cases, Option-cases, if◌then◌else◌,
}
use transcodex.Base.Int.{ℤ}
use transcodex.Db.Table.{lookup}
use transcodex.Db.Schema.{Db, Job, Attempt, AttemptStatus, FailureCategory}
use transcodex.Db.Sql.{ok, commit}
use transcodex.Db.Statements.{accepts}
use transcodex.Db.Invariant.{Inv}
use transcodex.Db.Evolves.{Keeps}
use transcodex.Db.Held.{holds-Held}
use transcodex.Db.Retry.{exhausted}
use transcodex.Db.Select.{All-found}
use transcodex.Redis.{Redis}
use transcodex.Run.{
  transaction_ok, transaction_given_up, calm, bind-then, ◌>>=◌, script, autocommit, transaction,
  pure,
}
use transcodex.Queue.{enqueue, enqueue_script, validate_priority}
use transcodex.Reaper.{Config}
use transcodex.Reaper.Transactions.{is_expired, attempt_expired}
use transcodex.Reaper.Invariant.{is_current, requeue_job_held, requeue_job_other, requeue_job-Keeps}
use transcodex.Reaper.Sweep.{enqueue_again, requeue, for_each, expire, recover_orphaned_jobs}
use transcodex.Reaper.Ended.{
  Valid, Ending, Ended, Ending-Ended, not_current-Ended, current_parts, expired_runs, own_attempt,
  again_valid, ended_db, retry-Ended, retry-Ending, retry-Valid, retry-Tracks, Tracks, Tracks-trans,
  pointed_runs,
}

-- The attempt is in its row as expired, and no job points to it.
abbrev pub IsEnded : ℕ → ℕ → Db → Type 0
IsEnded now a db =
    (y : Attempt) × (lookup a db.job_attempts ≡ some y)
    × (y.status ≡ AttemptStatus.expired)
    × (y.finished_at ≡ some now)
    × (y.failure_category ≡ some FailureCategory.lease_expired)
    × ((n : ℕ) (k : Job) → lookup n db.jobs ≡ some k → k.current_attempt_id ≢ some a)

module _ (r : Redis) where
  -- One entry, and what is left of the tables after it
  abbrev Expires : ℕ → Db → Db → Type 0
  Expires now db db' = Inv db' × Valid db' × Ending db db' × Tracks now db db'

  again_ok :
      (i now : ℕ) (o : Option ℤ) (db : Db) (s : r.State)
      → ((p : ℤ) → o ≡ some p → validate_priority p ≡ true)
      → (s' : r.State) × (enqueue_again r i o (calm db now s) ≡ (ok tt, calm db now s'))
  unfolding enqueue_again enqueue script pure ◌>>=◌
  again_ok i now none db s h = (s, refl)
  again_ok i now (some p) db s h = ((enqueue_script r i p s).1, rw (h p refl) refl)

  expire_lem :
      (i a now : ℕ) (db : Db) (s : r.State)
      → Inv db
      → Valid db
      → (db' : Db) × (s' : r.State) × (expire r (i, a) (calm db now s) ≡ (ok tt, calm db' now s'))
        × Expires now db db'
        × Ended db' (i, a)
  unfolding expire requeue
  expire_lem i a now db s v valid =
      elim (Bool-cases (accepts (is_current (some a)) (lookup i db.jobs))) [
        | inr n ↦
            let call =
              transaction_given_up _ db now s none (requeue_job_other i now (some a) reason db n) in
            let (s', again) = again_ok i now none db s (λ p e. absurd (cc)) in
            (
              db,
              s',
              bind-then _ _ call again,
              (v, valid, λ b y l runs. l, λ b y l. inl l),
              not_current-Ended db i a v n,
            )
        | inl h ↦ elim (Option-cases (lookup i db.jobs)) [
          | inl e ↦ absurd (cc (rw e at h))
          | inr (j, e) ↦
              let current : is_current (some a) j ≡ true = rw e at h in
              let (processed, own) = current_parts j a current in
              let (x, held) = holds-Held db i a j (v.job_ok i j e) processed own in
              let done = requeue_job_held i a now (some a) reason db j x e held (own_attempt a) in
              let call = transaction_ok _ db _ now s _ done in
              let after = ended_db i a now db j x e held in
              let (s', again) =
                again_ok i now (if exhausted j then none else some j.priority) after s
                  (again_valid j (valid i j e)) in
              let kept : Keeps db
                  (ok (commit (if exhausted j then none else some j.priority), after)) =
                rw done at (requeue_job-Keeps i now (some a) reason db v) in
              (
                after,
                s',
                bind-then _ _ call again,
                (
                  kept.0,
                  retry-Valid i a now db j x e held valid,
                  retry-Ending i a now db j x e held,
                  retry-Tracks i a now db j x e held,
                ),
                retry-Ended i a now db j x e held,
              )
        ]
      ]
    where
      reason : FailureCategory
      reason = FailureCategory.lease_expired

  expire-All :
      (now : ℕ) (entries : List (ℕ × ℕ)) (db : Db) (s : r.State)
      → Inv db
      → Valid db
      → (db' : Db) × (s' : r.State) × (for_each r (expire r) entries (calm db now s)
          ≡ (ok tt, calm db' now s'))
        × Expires now db db'
        × All (Ended db') entries
  unfolding for_each pure
  expire-All now [] db s v valid = (db, s, refl, (v, valid, λ b y l runs. l, λ b y l. inl l), tt)
  expire-All now ((i, a) ∷ entries) db s v valid =
      let (db1, s1, one, (v1, valid1, k1, t1), ended) = expire_lem i a now db s v valid in
      let (db2, s2, rest, (v2, valid2, k2, t2), all) = expire-All now entries db1 s1 v1 valid1 in
      (
        db2,
        s2,
        bind-then _ _ one rest,
        (v2, valid2, λ b y l runs. k1 b y (k2 b y l runs) runs, Tracks-trans now db db1 db2 t1 t2),
        (Ending-Ended db1 db2 (i, a) k2 ended, all),
      )

  -- On well-formed tables whose jobs have valid priorities, in a world that answers every call, the
  -- reaper's pass over the expired attempts succeeds, leaves well-formed tables, and leaves no
  -- attempt running whose lease had expired: each of those is in its row as expired, for that reason
  -- and finished now, and is the current attempt of no job.
  pub recover_orphaned_jobs_recovers :
      (c : Config) (db : Db) (now : ℕ) (s : r.State)
      → Inv db
      → ((i : ℕ) (j : Job) → lookup i db.jobs ≡ some j → validate_priority j.priority ≡ true)
      → let out = recover_orphaned_jobs r c (calm db now s) in
        (out.0 ≡ ok tt)
        × Inv out.1.db
        × ((a : ℕ) (x : Attempt)
            → lookup a out.1.db.job_attempts ≡ some x
            → is_expired c now (a, x) ≡ false)
        × ((a : ℕ) (x : Attempt)
            → lookup a db.job_attempts ≡ some x
            → is_expired c now (a, x) ≡ true
            → IsEnded now a out.1.db)
  unfolding recover_orphaned_jobs autocommit transaction ◌>>=◌
  recover_orphaned_jobs_recovers c db now s v valid =
      let entries = map (λ e. (e.1.job_id, e.0)) (filter (is_expired c now) db.job_attempts) in
      let (db', s', runs, (v', valid', k, t), all) = expire-All now entries db s v valid in
      let left : (a : ℕ) (x : Attempt)
          → lookup a db'.job_attempts ≡ some x
          → is_expired c now (a, x) ≡ false =
        λ a x l. none_left a x db' k all l in
      let same = sym (ap (λ out. out.1.db) runs) in
      (
        ap (λ out. out.0) runs,
        subst Inv same v',
        subst
            (λ u.
              (a : ℕ) (x : Attempt)
              → lookup a u.job_attempts ≡ some x
              → is_expired c now (a, x) ≡ false)
            same left,
        λ a x l late. subst (IsEnded now a) same (ended_row a x db' v' t left l late),
      )
    where
      none_left :
          (a : ℕ) (x : Attempt) (db' : Db)
          → Ending db db'
          → All
              (Ended db')
              (map (λ e. (e.1.job_id, e.0)) (filter (is_expired c now) db.job_attempts))
          → lookup a db'.job_attempts ≡ some x
          → is_expired c now (a, x) ≡ false
      none_left a x db' k all l = elim (Bool-cases (is_expired c now (a, x))) [
        | inl late ↦
            let runs = expired_runs c now a x late in
            let ended =
              All-found (is_expired c now) (λ e. (e.1.job_id, e.0)) (Ended db') db.job_attempts a x
                (k a x l runs) late all in
            absurd (cc (ended x l refl))
        | inr left ↦ left
      ]

      ended_row :
          (a : ℕ) (x : Attempt) (db' : Db)
          → Inv db'
          → Tracks now db db'
          → ((b : ℕ) (y : Attempt)
              → lookup b db'.job_attempts ≡ some y
              → is_expired c now (b, y) ≡ false)
          → lookup a db.job_attempts ≡ some x
          → is_expired c now (a, x) ≡ true
          → IsEnded now a db'
      ended_row a x db' v' t left l late = elim (t a x l) [
        | inl same ↦ absurd (cc (left a x same))
        | inr over ↦ (
          attempt_expired FailureCategory.lease_expired now x,
          over,
          refl,
          refl,
          refl,
          λ n k e. pointed_runs db' n a k _ v' e over refl,
        )
      ]

-- ===== src/System/Calls.antt =====
-- A call whose statements keep the invariant of the tables keeps it whatever becomes of the call.
use transcodex.Base.{ℕ, Option}
use transcodex.Db.Schema.{Db}
use transcodex.Db.Sql.{Sql, Decision, commit, give_up, Result, ok, err}
use transcodex.Db.Invariant.{Inv}
use transcodex.Db.Evolves.{Evolves, Keeps, Evolves-refl}
use transcodex.Redis.{Redis}
use transcodex.Run.{
  Fate, answered, lost, unacknowledged, Lease, World, fate, later, settle, transaction, autocommit,
  settle_script, script, settle_lock, lock_script,
}

module _ {r : Redis} where
  abbrev pub Kept : {A : Type 0} → World r → Result A × World r → Type 0
  Kept w out = Inv out.1.db × Evolves w.db out.1.db

  settle_script-Kept :
      {A : Type 0} (res : A × r.State) (t : Fate) (w : World r)
      → Inv w.db
      → Kept w (settle_script res t w)
  settle_script-Kept res answered w v = (v, Evolves-refl w.db)
  settle_script-Kept res lost w v = (v, Evolves-refl w.db)
  settle_script-Kept res unacknowledged w v = (v, Evolves-refl w.db)

  pub script-Kept :
      {A : Type 0} (f : r.State → A × r.State) (w : World r) → Inv w.db → Kept w (script f w)
  unfolding script
  script-Kept f w v =
      settle_script-Kept (f w.cache) (fate w.fates) (record w { fates = later w.fates }) v

  settle_lock-Kept :
      {A : Type 0} (res : A × Option Lease) (t : Fate) (w : World r)
      → Inv w.db
      → Kept w (settle_lock res t w)
  settle_lock-Kept res answered w v = (v, Evolves-refl w.db)
  settle_lock-Kept res lost w v = (v, Evolves-refl w.db)
  settle_lock-Kept res unacknowledged w v = (v, Evolves-refl w.db)

  pub lock_script-Kept :
      {A : Type 0} (f : ℕ → Option Lease → A × Option Lease) (w : World r)
      → Inv w.db
      → Kept w (lock_script f w)
  unfolding lock_script
  lock_script-Kept f w v =
      settle_lock-Kept (f w.now w.lock) (fate w.fates) (record w { fates = later w.fates }) v

  settle-Kept :
      {A : Type 0} (d : Decision A) (db : Db) (t : Fate) (w : World r)
      → Inv w.db
      → Inv db × Evolves w.db db
      → Kept w (settle d db t w)
  settle-Kept (commit a) db answered w v h = h
  settle-Kept (commit a) db lost w v h = (v, Evolves-refl w.db)
  settle-Kept (commit a) db unacknowledged w v h = h
  settle-Kept (give_up a) db answered w v h = (v, Evolves-refl w.db)
  settle-Kept (give_up a) db lost w v h = (v, Evolves-refl w.db)
  settle-Kept (give_up a) db unacknowledged w v h = (v, Evolves-refl w.db)

  pub transaction-Kept :
      {A : Type 0} (body : Sql (Decision A))
      → ((now : ℕ) (db : Db) → Inv db → Keeps db (body now db))
      → (w : World r) → Inv w.db
      → Kept w (transaction body w)
  unfolding transaction
  transaction-Kept {A} body h w v = go (body w.now w.db) (h w.now w.db v)
    where
      go :
          (res : Result (Decision A × Db))
          → Keeps w.db res
          → let next : World r = record w { fates = later w.fates } in
            let out : Result A × World r = elim res [
              | ok (d, db) ↦ settle d db (fate w.fates) next
              | err e ↦ (err e, next)
            ] in
            Inv out.1.db × Evolves w.db out.1.db
      go (ok (d, db)) k = settle-Kept d db (fate w.fates) (record w { fates = later w.fates }) v k
      go (err e) k = (v, Evolves-refl w.db)

  pub autocommit-Kept :
      {A : Type 0} (s : Sql A)
      → ((now : ℕ) (db : Db) → Inv db → Keeps db (s now db))
      → (w : World r) → Inv w.db
      → Kept w (autocommit s w)
  unfolding autocommit
  autocommit-Kept {A} s h = transaction-Kept _ (λ now db v. go db (s now db) (h now db v))
    where
      go :
          (db : Db) (res : Result (A × Db))
          → Keeps db res
          → Keeps db (
              let out : Result (Decision A × Db) = elim res [
                | ok (a, db') ↦ ok (commit a, db')
                | err e ↦ err e
              ] in
              out)
      go db (ok (a, db')) k = k
      go db (err e) k = tt

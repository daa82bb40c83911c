-- ===== src/Run.antt =====
-- How the three programs act on the world: the tables, the Redis server, the clock, and what
-- becomes of each call that they make to either server. A transaction is one call: the row locks of
-- SELECT … FOR UPDATE and of UPDATE keep every other transaction on the job out, and every
-- statement that fails inside it ends in the deferred Rollback.
use transcodex.Base.{ℕ, ◌+◌, Option, none, ◌≡◌, ap, ◌∙◌, List, [], ◌∷◌}
use transcodex.Db.Schema.{Db}
use transcodex.Db.Sql.{
  Sql, Decision, commit, give_up, Result, ok, err, Error, unavailable, processing_error,
}
use transcodex.Redis.{Redis}

-- What becomes of a call: it is answered, it never takes effect, or it takes effect and the answer
-- is lost.
pub data Fate : Type 0 where
  answered lost unacknowledged : Fate

-- The value and the time to live of the reapers' lock key; the key is gone at `expires_at`.
pub record Lease : Type 0 where
  pub holder : ℕ
  pub expires_at : ℕ

-- The fates of the coming calls; every call after the last of them is answered.
pub record World (r : Redis) : Type 0 where
  pub db : Db
  pub cache : r.State
  pub lock : Option Lease
  pub now : ℕ
  pub fates : List Fate

abbrev pub fate : List Fate → Fate
fate [] = answered
fate (f ∷ _) = f

abbrev pub later : List Fate → List Fate
later [] = []
later (_ ∷ fs) = fs

-- A world in which every call is answered.
abbrev pub calm : {r : Redis} → Db → ℕ → r.State → World r
calm db now s = record { db = db; cache = s; lock = none; now = now; fates = [] }

module _ (r : Redis) where
  abbrev pub M : Type 0 → Type 0
  M A = World r → Result A × World r

module _ {r : Redis} {A : Type 0} where
  unfoldable pub pure : A → M r A
  pure a w = (ok a, w)

  unfoldable pub throw : Error → M r A
  throw e w = (err e, w)

  abbrev pub settle : Decision A → Db → Fate → World r → Result A × World r
  settle (commit a) db answered w = (ok a, record w { db = db })
  settle (commit a) db lost w = (err unavailable, w)
  settle (commit a) db unacknowledged w = (err unavailable, record w { db = db })
  settle (give_up a) db answered w = (ok a, w)
  settle (give_up a) db _ w = (err unavailable, w)

  -- Begin, the statements of `body`, and Commit or Rollback.
  unfoldable pub transaction : Sql (Decision A) → M r A
  transaction body w =
      let next = record w { fates = later w.fates } in
      elim (body w.now w.db) [
        | ok (d, db) ↦ settle d db (fate w.fates) next
        | err e ↦ (err e, next)
      ]

  -- A statement outside a transaction commits by itself.
  unfoldable pub autocommit : Sql A → M r A
  autocommit s =
      transaction (λ now db. elim (s now db) [ ok (a, db') ↦ ok (commit a, db') | err e ↦ err e ])

  abbrev pub settle_script : A × r.State → Fate → World r → Result A × World r
  settle_script (a, s) answered w = (ok a, record w { cache = s })
  settle_script _ lost w = (err unavailable, w)
  settle_script (a, s) unacknowledged w = (err unavailable, record w { cache = s })

  -- A command or a script, which Redis runs atomically.
  unfoldable pub script : (r.State → A × r.State) → M r A
  script f w = settle_script (f w.cache) (fate w.fates) (record w { fates = later w.fates })

  abbrev pub settle_lock : A × Option Lease → Fate → World r → Result A × World r
  settle_lock (a, l) answered w = (ok a, record w { lock = l })
  settle_lock _ lost w = (err unavailable, w)
  settle_lock (a, l) unacknowledged w = (err unavailable, record w { lock = l })

  -- A command or a script on the reapers' lock key.
  unfoldable pub lock_script : (ℕ → Option Lease → A × Option Lease) → M r A
  lock_script f w = settle_lock (f w.now w.lock) (fate w.fates) (record w { fates = later w.fates })

  -- The error is handed on as a value: Go's `err` where the caller goes on.
  unfoldable pub attempt : M r A → M r (Result A)
  attempt m w = let (res, w') = m w in (ok res, w')

abbrev pub reply : Fate → Result (Unit {0})
reply answered = ok tt
reply _ = err processing_error

module _ {r : Redis} where
  -- A call of something that touches neither server: FFmpeg, the disk, the object store.
  unfoldable pub external : M r (Unit {0})
  external w = (reply (fate w.fates), record w { fates = later w.fates })

  -- A timer
  unfoldable pub sleep : ℕ → M r (Unit {0})
  sleep seconds w = (ok tt, record w { now = w.now + seconds })

infixl 5 ◌>>=◌ ◌>>◌
unfoldable pub ◌>>=◌ : {r : Redis} {A B : Type 0} → M r A → (A → M r B) → M r B
◌>>=◌ m f w = let (res, w') = m w in elim res [ ok a ↦ f a w' | err e ↦ (err e, w') ]

abbrev pub ◌>>◌ : {r : Redis} {A B : Type 0} → M r A → M r B → M r B
m >> k = m >>= λ _. k

-- After a call that succeeded, the rest goes on from where it left the world.
pub bind-then :
    {r : Redis} {A B : Type 0} (m : M r A) (f : A → M r B) {w w' : World r} {a : A}
    {out : Result B × World r}
    → m w ≡ (ok a, w')
    → f a w' ≡ out
    → (m >>= f) w ≡ out
unfolding ◌>>=◌
bind-then {B = B} m f e rest =
    ap
      (λ p.
        let out : Result B × World _ = elim p.0 [ ok a ↦ f a p.1 | err e ↦ (err e, p.1) ] in out)
      e
    ∙ rest

-- With its call answered, a transaction that commits leaves its tables, and one that returns early
-- leaves those that it found.
pub transaction_ok :
    {r : Redis} {A : Type 0} (body : Sql (Decision A)) (db db' : Db) (now : ℕ) (c : r.State) (a : A)
    → body now db ≡ ok (commit a, db')
    → transaction {r = r} body (calm db now c) ≡ (ok a, calm db' now c)
unfolding transaction
transaction_ok body db db' now c a e = rw (e, transaction)

pub transaction_given_up :
    {r : Redis} {A : Type 0} (body : Sql (Decision A)) (db : Db) (now : ℕ) (c : r.State) (a : A)
    → body now db ≡ ok (give_up a, db)
    → transaction {r = r} body (calm db now c) ≡ (ok a, calm db now c)
unfolding transaction
transaction_given_up body db now c a e = rw (e, transaction)

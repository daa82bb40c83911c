-- ===== src/Db/Sql.antt =====
-- A sequence of SQL statements inside one transaction: it reads the transaction's time, changes
-- the tables, and stops at the first statement that returns an error. The body of a transaction
-- ends by a decision: to commit, or to return early, which the deferred Rollback undoes.
use transcodex.Base.{ℕ}
use transcodex.Db.Schema.{Db}

-- What a call of the program reports in Go's `error`.
pub data Error : Type 0 where
  -- pgx.ErrNoRows
  no_rows : Error
  -- a constraint of the schema refused an INSERT
  constraint : Error
  -- the server could not be reached, or its answer was lost
  unavailable : Error
  -- errStaleAttempt
  stale_attempt : Error
  -- errJobAlreadyClaimed
  already_claimed : Error
  -- queue.ValidatePriority
  bad_priority : Error
  -- redis.Nil
  queue_empty : Error
  -- FFmpeg, the file system or the object store reported a failure
  processing_error : Error

pub data Result {ℓ} (A : Type ℓ) : Type ℓ where
  ok : A → Result A
  err : Error → Result A

pub data Decision (A : Type 0) : Type 0 where
  commit : A → Decision A
  give_up : A → Decision A

abbrev pub Sql : Type 0 → Type 0
Sql A = ℕ → Db → Result (A × Db)

module _ {A : Type 0} where
  abbrev pub pure : A → Sql A
  pure a now db = ok (a, db)

  abbrev pub throw : Error → Sql A
  throw e now db = err e

infixl 5 ◌>>=◌ ◌>>◌
abbrev pub ◌>>=◌ : {A B : Type 0} → Sql A → (A → Sql B) → Sql B
◌>>=◌ m f now db = elim (m now db) [ ok (a, db') ↦ f a now db' | err e ↦ err e ]

abbrev pub ◌>>◌ : {A B : Type 0} → Sql A → Sql B → Sql B
m >> k = m >>= λ _. k

-- ===== src/Reaper/Ended.antt =====
-- What the end of one expired attempt leaves of the others, for the reaper's second pass.
use transcodex.Base.{
  ℕ, ◌≡◌, ◌≢◌, ◌⊎◌, ◌==◌, ==_iff, refl, sym, ◌∙◌, ap, subst, inl, inr, Bool, true, false, none,
  some, arith, Bool-cases, if◌then◌else◌,
}
use transcodex.Base.Int.{ℤ}
use transcodex.Db.Table.{lookup, lookup-modify_cases, lookup-modify_self, lookup-modify_ne}
use transcodex.Db.Schema.{Db, Job, JobStatus, Attempt, FailureCategory, is_running, is_processing}
use transcodex.Db.Statements.{accepts, touch, is_id}
use transcodex.Db.Invariant.{Inv}
use transcodex.Db.Held.{Held, processing-Held}
use transcodex.Db.Retry.{exhausted, retried, after_retry}
use transcodex.Queue.{validate_priority}
use transcodex.Reaper.{Config}
use transcodex.Reaper.Transactions.{is_expired, attempt_expired, is_other}
use transcodex.Reaper.Invariant.{is_current}

some_inj : (p q : ℤ) → some p ≡ some q → p ≡ q
some_inj p q e = cc

abbrev pub Valid : Db → Type 0
Valid db = (i : ℕ) (j : Job) → lookup i db.jobs ≡ some j → validate_priority j.priority ≡ true

-- The attempts that run have run before, in the same rows.
abbrev pub Ending : Db → Db → Type 0
Ending db db' =
    (a : ℕ) (y : Attempt)
    → lookup a db'.job_attempts ≡ some y
    → is_running y.status ≡ true
    → lookup a db.job_attempts ≡ some y

-- The attempt, if it is one of the job, does not run.
abbrev pub Ended : Db → ℕ × ℕ → Type 0
Ended db (i, a) =
    (y : Attempt) → lookup a db.job_attempts ≡ some y → y.job_id ≡ i → is_running y.status ≡ false

pub Ending-Ended : (db db' : Db) (e : ℕ × ℕ) → Ending db db' → Ended db e → Ended db' e
Ending-Ended db db' (i, a) k h y l same = elim (Bool-cases (is_running y.status)) [
  | inl runs ↦ h y (k a y l runs) same
  | inr ended ↦ ended
]

-- An attempt that runs is the current one of its job.
current_row :
    (j : Job) (a : ℕ)
    → j.status ≡ JobStatus.processing
    → j.current_attempt_id ≡ some a
    → is_current (some a) j ≡ false
    → ◌≡◌ {A = Bool} true false
current_row j a p c h = ground arith

pub not_current-Ended :
    (db : Db) (i a : ℕ)
    → Inv db
    → accepts (is_current (some a)) (lookup i db.jobs) ≡ false
    → Ended db (i, a)
not_current-Ended db i a v h y l same = elim (Bool-cases (is_running y.status)) [
  | inl runs ↦
      let (j, lj, held) = v.attempt_ok a y l in
      let (p, c) = held runs in
      let own : lookup i db.jobs ≡ some j = sym (ap (λ k. lookup k db.jobs) same) ∙ lj in
      let h' = rw own at h in absurd (cc (current_row j a p c h'))
  | inr ended ↦ ended
]

-- Every attempt is still there, in its row or as one that the reaper has ended.
abbrev pub Tracks : ℕ → Db → Db → Type 0
Tracks now db db' =
    (a : ℕ) (x : Attempt)
    → lookup a db.job_attempts ≡ some x
    → (lookup a db'.job_attempts ≡ some x)
      ⊎ (lookup a db'.job_attempts ≡ some (attempt_expired FailureCategory.lease_expired now x))

pub Tracks-trans :
    (now : ℕ) (db db' db'' : Db) → Tracks now db db' → Tracks now db' db'' → Tracks now db db''
Tracks-trans now db db' db'' t u a x l = elim (t a x l) [
  | inl same ↦ u a x same
  | inr over ↦ elim (u a _ over) [ inl left ↦ inr left | inr again ↦ inr again ]
]

-- No job points to an attempt that does not run.
pub pointed_runs :
    (db : Db) (n a : ℕ) (k : Job) (y : Attempt)
    → Inv db
    → lookup n db.jobs ≡ some k
    → lookup a db.job_attempts ≡ some y
    → is_running y.status ≡ false
    → k.current_attempt_id ≢ some a
pointed_runs db n a k y v e l over own = elim (Bool-cases (is_processing k.status)) [
  | inl p ↦
      let (b, z, (s, c, lb, m, r, f)) = processing-Held db n k (v.job_ok n k e) p in
      absurd (ground (arith, own, c, lb, l, r, over))
  | inr q ↦ absurd (ground (arith, own, (v.job_ok n k e).pointed, q))
]

same_priority :
    (now : ℕ) (used_up : Bool) (w : Job)
    → validate_priority (touch now (retried used_up now w)).priority ≡ validate_priority w.priority
same_priority now true w = refl
same_priority now false w = refl

module _ (i a now : ℕ) (db : Db) (j : Job) (x : Attempt) (found : lookup i db.jobs ≡ some j)
    (held : Held db i a j x) where
  abbrev pub ended_db : Db
  ended_db = after_retry i a now (attempt_expired FailureCategory.lease_expired) (exhausted j) db

  pub retry-Ended : Ended ended_db (i, a)
  retry-Ended y l same =
      elim (lookup-modify_cases a (attempt_expired FailureCategory.lease_expired now)
        db.job_attempts a y l) [
          | inl (e, (u, lu, out)) ↦ ap (λ z. is_running z.status) out
          | inr (ne, other) ↦ absurd (ne refl)
        ]

  pub retry-Ending : Ending db ended_db
  retry-Ending b y l runs =
      elim (lookup-modify_cases a (attempt_expired FailureCategory.lease_expired now)
        db.job_attempts b y l) [
          | inl (e, (u, lu, out)) ↦ absurd (cc (ap (λ z. is_running z.status) out))
          | inr (ne, other) ↦ other
        ]

  pub retry-Tracks : Tracks now db ended_db
  retry-Tracks b y l = elim (Bool-cases (a == b)) [
    | inl same ↦
        let e : a ≡ b = (==_iff a b).0 same in
        inr (
          rw (← e) (
            lookup-modify_self a (attempt_expired FailureCategory.lease_expired now) db.job_attempts
              y (rw e l)))
    | inr differs ↦ inl (
        lookup-modify_ne a (attempt_expired FailureCategory.lease_expired now) db.job_attempts b
          (ground arith)
        ∙ l)
  ]

  pub retry-Valid : Valid db → Valid ended_db
  retry-Valid valid k u l =
      elim (lookup-modify_cases i (λ w. touch now (retried (exhausted j) now w)) db.jobs k u l) [
        | inl (e, (w, lw, out)) ↦
            ap (λ z. validate_priority z.priority) out
            ∙ same_priority now (exhausted j) w
            ∙ valid i w lw
        | inr (ne, other) ↦ valid k u other
      ]

pub current_parts :
    (j : Job) (a : ℕ)
    → is_current (some a) j ≡ true
    → (is_processing j.status ≡ true) × (is_id a j.current_attempt_id ≡ true)
current_parts j a h = (ground arith, ground arith)

pub expired_runs :
    (c : Config) (now a : ℕ) (x : Attempt)
    → is_expired c now (a, x) ≡ true
    → is_running x.status ≡ true
expired_runs c now a x late = ground arith

pub own_attempt : (a : ℕ) → is_other (some a) a ≡ false
own_attempt a = ground arith

pub again_valid :
    (j : Job)
    → validate_priority j.priority ≡ true
    → (p : ℤ) → (if exhausted j then none else some j.priority) ≡ some p
    → validate_priority p ≡ true
again_valid j valid p e = elim (Bool-cases (exhausted j)) [
  | inl used_up ↦ absurd (cc (rw used_up at e))
  | inr left ↦
      let e' = rw left at e in subst (λ q. validate_priority q ≡ true) (some_inj _ _ e') valid
]

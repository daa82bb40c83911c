-- ===== src/Queue/Spec.antt =====
-- What the queue promises, with no tiers and no sets: the jobs that wait, in order of arrival, each
-- with its priority.
use transcodex.Base.{
  ℕ, ◌≡◌, Bool, true, false, ◌||◌, Option, none, some, List, [], ◌∷◌, ◌++◌, ◌==◌, if◌then◌else◌,
  All,
}
use transcodex.Base.Int.{ℤ, eqb_ℤ, ◌≤ℤ◌}
use transcodex.Redis.{Keys}
use transcodex.Redis.Tiers.{◌<ℤ◌, has_tier, Falling}

abbrev pub Waiting : Type 0
Waiting = List (ℕ × ℤ)

abbrev pub waits : ℕ → Waiting → Bool
waits job [] = false
waits job ((i, _) ∷ q) = job == i || waits job q

-- A job that waits already keeps its place and its priority.
abbrev pub arrive : ℕ → ℤ → Waiting → Waiting
arrive job p q = if waits job q then q else q ++ (job, p) ∷ []

-- The next job has the highest priority of all that wait, and came first among those.
pub data Next (q : Waiting) : Option ℕ → Waiting → Type 0 where
  nothing : q ≡ [] → Next q none []
  oldest :
      (before after : Waiting) (job : ℕ) (p : ℤ)
      → q ≡ before ++ (job, p) ∷ after
      → All (λ e. e.1 <ℤ p) before
      → All (λ e. e.1 ≤ℤ p) after
      → Next q (some job) (before ++ after)

-- The jobs of one priority, in order of arrival.
abbrev pub jobs_at : ℤ → Waiting → List ℕ
jobs_at p [] = []
jobs_at p ((job, s) ∷ q) = if eqb_ℤ s p then job ∷ jobs_at p q else jobs_at p q

abbrev pub is_nonempty {ℓ} : {A : Type ℓ} → List A → Bool
is_nonempty [] = false
is_nonempty (_ ∷ _) = true

-- No job waits twice.
abbrev pub Once : Waiting → Type 0
Once [] = Unit {0}
Once ((job, _) ∷ q) = (waits job q ≡ false) × Once q

-- The keys of Redis hold just these jobs.
pub record Represents (k : Keys) (q : Waiting) : Type 0 where
  pub once : Once q
  pub members : (job : ℕ) → k.members job ≡ waits job q
  pub lists : (p : ℤ) → k.lists p ≡ jobs_at p q
  pub falling : Falling k.tiers
  pub tiers : (p : ℤ) → has_tier p k.tiers ≡ is_nonempty (jobs_at p q)

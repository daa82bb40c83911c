-- ===== src/Queue/Entries.antt =====
-- Laws of the waiting jobs: an arrival at the end, and the departure of the oldest of a priority.
use transcodex.Base.{
  ℕ, ◌≡◌, refl, true, false, not, ◌&&◌, ◌||◌, List, [], ◌∷◌, ◌++◌, ◌==◌, if◌then◌else◌, All, arith,
  Bool-cases, inl, inr,
}
use transcodex.Base.Int.{ℤ, eqb_ℤ, eqb_ℤ_iff, eqb_ℤ_refl, ◌≤ℤ◌}
use transcodex.Redis.Tiers.{◌<ℤ◌}
use transcodex.Queue.Spec.{Waiting, waits, jobs_at, is_nonempty, Once}

pub waits-append :
    (i job : ℕ) (p : ℤ) (q : Waiting) → waits i (q ++ (job, p) ∷ []) ≡ (waits i q || i == job)
waits-append i job p [] = ground arith
waits-append i job p ((k, s) ∷ q) = ground (arith, waits-append i job p q)

pub jobs_at-append :
    (p s : ℤ) (job : ℕ) (q : Waiting)
    → jobs_at p (q ++ (job, s) ∷ []) ≡ (if eqb_ℤ s p then jobs_at p q ++ job ∷ [] else jobs_at p q)
jobs_at-append p s job [] = ground arith
jobs_at-append p s job ((k, r) ∷ q) = ground (arith, jobs_at-append p s job q)

pub Once-append :
    (job : ℕ) (p : ℤ) (q : Waiting) → waits job q ≡ false → Once q → Once (q ++ (job, p) ∷ [])
Once-append job p [] h o = (refl, tt)
Once-append job p ((k, s) ∷ q) h o = ground (arith, waits-append k job p q, Once-append job p q)

-- The oldest job of a priority, and what stands before and after it.
pub record Oldest (p : ℤ) (q : Waiting) (job : ℕ) (left : List ℕ) : Type 0 where
  pub before : Waiting
  pub after : Waiting
  pub split : q ≡ before ++ (job, p) ∷ after
  pub skipped : All (λ e. eqb_ℤ e.1 p ≡ false) before
  pub remain : jobs_at p (before ++ after) ≡ left

pub split_at_job :
    (p : ℤ) (q : Waiting) (job : ℕ) (left : List ℕ) → jobs_at p q ≡ job ∷ left → Oldest p q job left
split_at_job p [] job left h = cc
split_at_job p ((k, s) ∷ q) job left h = elim (Bool-cases (eqb_ℤ s p)) [
  | inl same ↦
      let e = (eqb_ℤ_iff s p).0 same in
      record { before = []; after = q; split = ground arith; skipped = tt; remain = ground arith }
  | inr differs ↦
      let o = split_at_job p q job left (ground arith) in
      record {
        before = (k, s) ∷ o.before;
        after = o.after;
        split = ground (arith, o.split);
        skipped = (differs, o.skipped);
        remain = ground (arith, o.remain);
      }
]

module _ (job : ℕ) (p : ℤ) (after : Waiting) where
  pub jobs_at-drop :
      (s : ℤ) (before : Waiting)
      → eqb_ℤ s p ≡ false
      → jobs_at s (before ++ (job, p) ∷ after) ≡ jobs_at s (before ++ after)
  jobs_at-drop s [] h = ground (arith, eqb_ℤ_iff p s, eqb_ℤ_iff s p)
  jobs_at-drop s ((k, r) ∷ before) h = ground (arith, jobs_at-drop s before h)

  pub waits-drop :
      (i : ℕ) (before : Waiting)
      → Once (before ++ (job, p) ∷ after)
      → waits i (before ++ after) ≡ (not (i == job) && waits i (before ++ (job, p) ∷ after))
  waits-drop i [] o = ground arith
  waits-drop i ((k, r) ∷ before) o =
      ground (arith, waits-drop i before o.1, waits-drop job before o.1, waits_here before)
    where
      waits_here : (b : Waiting) → waits job (b ++ (job, p) ∷ after) ≡ true
      waits_here [] = ground arith
      waits_here ((l, t) ∷ b) = ground (arith, waits_here b)

  pub Once-drop : (before : Waiting) → Once (before ++ (job, p) ∷ after) → Once (before ++ after)
  Once-drop [] o = o.1
  Once-drop ((k, r) ∷ before) o = ground (arith, waits-drop k before o.1, Once-drop before o.1)

-- A bound on the priorities that are in use bounds every entry.
pub entries-le :
    (t : ℤ) (q : Waiting)
    → ((p : ℤ) → is_nonempty (jobs_at p q) ≡ true → p ≤ℤ t)
    → All (λ e. e.1 ≤ℤ t) q
entries-le t [] h = tt
entries-le t ((k, s) ∷ q) h =
    (h s (ground (arith, eqb_ℤ_refl s)), entries-le t q (λ p n. h p (ground arith)))

-- Below the bound and of another priority is strictly below.
pub skipped-lt :
    (t : ℤ) (job : ℕ) (before after : Waiting)
    → All (λ e. e.1 ≤ℤ t) (before ++ (job, t) ∷ after)
    → All (λ e. eqb_ℤ e.1 t ≡ false) before
    → All (λ e. e.1 <ℤ t) before × All (λ e. e.1 ≤ℤ t) after
skipped-lt t job [] after a s = (tt, a.1)
skipped-lt t job ((k, r) ∷ before) after a s =
    let (low, high) = skipped-lt t job before after a.1 s.1 in
    ((ground (arith, a.0, s.0), low), high)

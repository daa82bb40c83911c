-- ===== src/Benchmark/Percentile.antt =====
-- What a percentile of a list of values is: the value of its rank.
use transcodex.Base.{
  ℕ, zero, suc, ◌+◌, ◌*◌, ◌≤◌, ◌<◌, ◌≡◌, refl, Bool, true, Option, none, some, List, [], ◌∷◌,
  length, All, arith,
}
use transcodex.Base.Int.{ℤ}
use transcodex.Benchmark.Summary.{get_elem?, leb_ℤ, count, IsSorted, Numerics, index_of, percentile}

leb_ℤ_refl : (v : ℤ) → leb_ℤ v v ≡ true
leb_ℤ_refl v = ground arith

count-All :
    (v : ℤ) (vs : List ℤ) → All (λ w. leb_ℤ v w ≡ true) vs → count (λ w. leb_ℤ v w) vs ≡ length vs
count-All v [] h = refl
count-All v (w ∷ vs) (e, h) = rw e (omega (arith, count-All v vs h))

All-get :
    (v w : ℤ) (vs : List ℤ) (i : ℕ)
    → All (λ u. leb_ℤ v u ≡ true) vs
    → get_elem? vs i ≡ some w
    → leb_ℤ v w ≡ true
All-get v w [] i h e = absurd (cc)
All-get v w (u ∷ vs) zero (h, hs) e = let same : u ≡ w = cc in rw (← same) h
All-get v w (u ∷ vs) (suc i) (h, hs) e = All-get v w vs i hs e

count_cons : (p : ℤ → Bool) (v : ℤ) (vs : List ℤ) → count p vs ≤ count p (v ∷ vs)
count_cons p v vs = ground arith

-- `w` is greater than or equal to more than `i` of the values, and less than or equal to all but `i`.
abbrev pub Ranks : ℕ → List ℤ → ℤ → Type 0
Ranks i values w =
    (i < count (λ u. leb_ℤ u w) values) × (length values ≤ i + count (λ u. leb_ℤ w u) values)

get_elem?-Ranks :
    (values : List ℤ) (i : ℕ)
    → IsSorted values
    → i < length values
    → (w : ℤ) × (get_elem? values i ≡ some w) × Ranks i values w
get_elem?-Ranks [] i s h = absurd (omega arith)
get_elem?-Ranks (v ∷ vs) zero (first, s) h = (
  v,
  refl,
  (rw (leb_ℤ_refl v) (omega arith), rw (leb_ℤ_refl v) (omega (arith, count-All v vs first))),
)
get_elem?-Ranks (v ∷ vs) (suc i) (first, s) h =
    let (w, e, (below, above)) = get_elem?-Ranks vs i s (omega arith) in
    (
      w,
      e,
      (
        rw (All-get v w vs i first e) (omega arith),
        omega (arith, above, count_cons (λ u. leb_ℤ w u) v vs),
      ),
    )

-- What a percentile is: there is none of no values, and otherwise it is the value of the rank that
-- lies nearest to so many hundredths of the last index, the upper one of two.
abbrev pub IsPercentile : ℕ → List ℤ → Option ℤ → Type 0
IsPercentile hundredths [] o = o ≡ none
IsPercentile hundredths (v ∷ vs) o =
    (k : ℕ) × (100 * k ≤ length vs * hundredths + 50)
    × (length vs * hundredths + 50 < 100 * k + 100)
    × ((w : ℤ) × (o ≡ some w) × Ranks k (v ∷ vs) w)

module _ (n : Numerics) where
  pub percentile-IsPercentile :
      (hundredths : ℕ)
      → ((k : ℕ) → index_of hundredths k ≤ k)
      → (values : List ℤ) → IsPercentile hundredths values (percentile n.sort hundredths values)
  unfolding percentile
  percentile-IsPercentile hundredths h [] = refl
  percentile-IsPercentile hundredths h (v ∷ vs) =
      let (w, e, (below, above)) =
        get_elem?-Ranks (n.sort (v ∷ vs)) (index_of hundredths (length vs))
          (n.sort-IsSorted (v ∷ vs)) (rw (n.length-sort (v ∷ vs)) (omega (arith, h (length vs)))) in
      (
        index_of hundredths (length vs),
        omega arith,
        omega arith,
        (
          w,
          e,
          (
            rw (n.count-sort (λ u. leb_ℤ u w) (v ∷ vs)) at below,
            rw (n.count-sort (λ u. leb_ℤ w u) (v ∷ vs), n.length-sort (v ∷ vs)) at above,
          ),
        ),
      )

-- ===== src/Api/Ages.antt =====
-- The ages that `collectStats` reports: of the oldest row that the query finds, or none of no rows.
use transcodex.Base.{
  ℕ, ◌≤◌, ◌≡◌, refl, true, Option, none, some, List, [], ◌∷◌, All, contains, arith, leb,
  if◌then◌else◌, subst, sym, Bool-cases, inl, inr,
}
use transcodex.Base.Int.{ℤ, minus}
use transcodex.Api.Stats.{least, age}

-- The least of some numbers is one of them, and at most each of them.
abbrev IsLeast : List ℕ → Option ℕ → Type 0
IsLeast ts none = ts ≡ []
IsLeast ts (some t) = (contains t ts ≡ true) × All (λ u. t ≤ u) ts

-- There is no age of no times; else it is the age of one of them, than which none is earlier.
abbrev pub IsAge : ℕ → List ℕ → Option ℤ → Type 0
IsAge now ts none = ts ≡ []
IsAge now ts (some a) = (t : ℕ) × (contains t ts ≡ true) × All (λ u. t ≤ u) ts × (a ≡ minus now t)

All-lower : (t u : ℕ) (ts : List ℕ) → t ≤ u → All (λ w. u ≤ w) ts → All (λ w. t ≤ w) ts
All-lower t u [] h all = tt
All-lower t u (w ∷ ts) h (first, all) = (omega (arith, h, first), All-lower t u ts h all)

least-IsLeast : (ts : List ℕ) → IsLeast ts (least ts)
least-IsLeast [] = refl
least-IsLeast (t ∷ ts) = next (least ts) (least-IsLeast ts)
  where
    next :
        (o : Option ℕ)
        → IsLeast ts o
        → IsLeast (t ∷ ts) (elim o [ none ↦ some t | some u ↦ some (if leb t u then t else u) ])
    next none h = (ground arith, rw h (omega arith, tt))
    next (some u) (member, all) = elim (Bool-cases (leb t u)) [
      | inl low ↦
          subst (λ b. IsLeast (t ∷ ts) (some (if b then t else u))) (sym low)
            (ground arith, (omega arith, All-lower t u ts (ground arith) all))
      | inr high ↦
          subst (λ b. IsLeast (t ∷ ts) (some (if b then t else u))) (sym high)
            (ground (arith, member), (ground arith, all))
    ]

pub age-IsAge : (now : ℕ) (ts : List ℕ) → IsAge now ts (age now ts)
age-IsAge now ts = of_least (least ts) (least-IsLeast ts)
  where
    of_least :
        (o : Option ℕ)
        → IsLeast ts o
        → IsAge now ts (elim o [ none ↦ none | some t ↦ some (minus now t) ])
    of_least none h = h
    of_least (some t) (member, all) = (t, member, all, refl)

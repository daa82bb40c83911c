-- ===== src/Env/Entries.antt =====
-- What `envList` reads: at least one entry, and none that is empty.
use transcodex.Base.{◌≤◌, ◌≡◌, inl, inr, false, List, [], ◌∷◌, arith, length, All, Bool-cases}
use transcodex.Db.Schema.{Text}
use transcodex.Env.{Environment, env_list, is_empty, trim_space, split, values_of, or_fallback}

values_of-All : (parts : List Text) → All (λ v. is_empty v ≡ false) (values_of parts)
values_of-All [] = tt
values_of-All (part ∷ parts) = elim (Bool-cases (is_empty (trim_space part))) [
  | inl blank ↦ rw blank (values_of-All parts)
  | inr full ↦ rw full (full, values_of-All parts)
]

or_fallback-All :
    (vs fallback : List Text)
    → All (λ v. is_empty v ≡ false) vs
    → All (λ v. is_empty v ≡ false) fallback
    → 1 ≤ length fallback
    → (1 ≤ length (or_fallback vs fallback))
      × All (λ v. is_empty v ≡ false) (or_fallback vs fallback)
or_fallback-All [] fallback h k low = (low, k)
or_fallback-All (v ∷ vs) fallback h k low = (omega arith, h)

-- Whatever text the variable holds, `envList` returns at least one entry, and no empty one, for a
-- fallback of which this holds.
env_list-All :
    (e : Environment) (key : Text) (fallback : List Text)
    → 1 ≤ length fallback
    → All (λ v. is_empty v ≡ false) fallback
    → (1 ≤ length (env_list e key fallback))
      × All (λ v. is_empty v ≡ false) (env_list e key fallback)
unfolding env_list
env_list-All e key fallback low k = elim (Bool-cases (is_empty (e key))) [
  | inl unset ↦ rw unset (low, k)
  | inr set ↦
      let values = values_of ((split (e key)).0 ∷ (split (e key)).1) in
      rw set (
        or_fallback-All values fallback (values_of-All ((split (e key)).0 ∷ (split (e key)).1)) k
          low)
]

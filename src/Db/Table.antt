-- ===== src/Db/Table.antt =====
-- A table with a primary key, as the list of its keyed rows, newest first.
use transcodex.Base.{
  ℕ, ◌≡◌, refl, ◌≢◌, ◌⊎◌, inl, inr, Bool-cases, ==_iff, Bool, true, false, Option, none, some, List,
  [], ◌∷◌, arith, ◌==◌, if◌then◌else◌,
}
use mathlib.Core.Option

abbrev pub Table {ℓ} : Type ℓ → Type ℓ
Table V = List (ℕ × V)

module _ {ℓ} {V : Type ℓ} where
  -- SELECT … WHERE id = k
  abbrev pub lookup : ℕ → Table V → Option V
  lookup k [] = none
  lookup k ((j, v) ∷ t) = if k == j then some v else lookup k t

  abbrev pub has_key : ℕ → Table V → Bool
  has_key k t = elim (lookup k t) [ none ↦ false | some _ ↦ true ]

  -- UPDATE … SET f WHERE id = k
  unfoldable pub modify : ℕ → (V → V) → Table V → Table V
  modify k f [] = []
  modify k f ((j, v) ∷ t) = if k == j then (j, f v) ∷ t else (j, v) ∷ modify k f t

  pub lookup-modify :
      (k i : ℕ) (f : V → V) (t : Table V)
      → lookup i (modify k f t) ≡ (if k == i then Option.map f (lookup i t) else lookup i t)
  unfolding modify
  lookup-modify k i f [] = ground arith
  lookup-modify k i f ((j, v) ∷ t) = ground (arith, lookup-modify k i f t)

  mapped :
      (f : V → V) (o : Option V) (w : V)
      → Option.map f o ≡ some w
      → (u : V) × (o ≡ some u) × (w ≡ f u)
  mapped f none w e = cc
  mapped f (some u) w e = (u, refl, cc)

-- What is found after an update by key is the updated row, or a row that was there under another key.
module _ {ℓ} {V : Type ℓ} (k : ℕ) (f : V → V) (t : Table V) where
  pub lookup-modify_cases :
      (i : ℕ) (w : V)
      → lookup i (modify k f t) ≡ some w
      → ((k ≡ i) × ((u : V) × (lookup k t ≡ some u) × (w ≡ f u)))
        ⊎ ((k ≢ i) × (lookup i t ≡ some w))
  lookup-modify_cases i w l = elim (Bool-cases (k == i)) [
    | inl same ↦
        let e = (==_iff k i).0 same in
        inl (e, rw e (mapped f (lookup i t) w (ground (arith, lookup-modify k i f t))))
    | inr differs ↦ inr (ground arith, ground (arith, lookup-modify k i f t))
  ]

  pub lookup-modify_self : (u : V) → lookup k t ≡ some u → lookup k (modify k f t) ≡ some (f u)
  lookup-modify_self u l = ground (arith, lookup-modify k k f t)

  pub lookup-modify_ne : (i : ℕ) → k ≢ i → lookup i (modify k f t) ≡ lookup i t
  lookup-modify_ne i ne = ground (arith, lookup-modify k i f t)

  pub lookup-modify-none : (i : ℕ) → lookup i (modify k f t) ≡ none → lookup i t ≡ none
  lookup-modify-none i l = ground (arith, lookup-modify k i f t)

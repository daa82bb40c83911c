-- ===== src/Db/Postgres.antt =====
-- What the queries ask of PostgreSQL beyond the statements of Sql: ORDER BY, which gives the same
-- rows in order, and percentile_cont, whose value is only reported.
use transcodex.Base.{
  ℕ, ◌≡◌, refl, ◌∙◌, Bool, Option, none, List, [], ◌∷◌, filter, length, arith, ltb, leb, All, true,
  Bool-cases, inl, inr, if◌then◌else◌,
}
use transcodex.Base.Int.{ℤ}

pub data Direction : Type 0 where
  ascending descending : Direction

-- May a row stand before another?
abbrev pub precedes : {A : Type 0} → Direction → (A → ℕ) → A → A → Bool
precedes ascending key x y = leb (key x) (key y)
precedes descending key x y = leb (key y) (key x)

abbrev pub IsOrdered : {A : Type 0} → Direction → (A → ℕ) → List A → Type 0
IsOrdered d key [] = Unit {0}
IsOrdered d key (x ∷ xs) = All (λ y. precedes d key x y ≡ true) xs × IsOrdered d key xs

pub record Postgres : Type 1 where
  pub order_by : {A : Type 0} → Direction → (A → ℕ) → List A → List A
  pub order_by_count :
      {A : Type 0} (d : Direction) (key : A → ℕ) (p : A → Bool) (rows : List A)
      → length (filter p (order_by d key rows)) ≡ length (filter p rows)
  pub order_by-IsOrdered :
      {A : Type 0} (d : Direction) (key : A → ℕ) (rows : List A)
      → IsOrdered d key (order_by d key rows)
  -- percentile_cont of a percentage, NULL over no rows
  pub percentile_cont : ℕ → List ℤ → Option ℤ

-- A row after those that come before it, or are its equals
abbrev pub insert : {A : Type 0} → Direction → (A → ℕ) → A → List A → List A
insert d key x [] = x ∷ []
insert ascending key x (y ∷ ys) =
    let rest = insert ascending key x ys in if ltb (key x) (key y) then x ∷ y ∷ ys else y ∷ rest
insert descending key x (y ∷ ys) =
    let rest = insert descending key x ys in if ltb (key y) (key x) then x ∷ y ∷ ys else y ∷ rest

abbrev pub sort : {A : Type 0} → Direction → (A → ℕ) → List A → List A
sort d key [] = []
sort d key (x ∷ xs) = insert d key x (sort d key xs)

module _ {A : Type 0} (key : A → ℕ) (p : A → Bool) where
  insert-count :
      (d : Direction) (x : A) (ys : List A)
      → length (filter p (insert d key x ys)) ≡ length (filter p (x ∷ ys))
  insert-count d x [] = refl
  insert-count ascending x (y ∷ ys) = ground (arith, insert-count ascending x ys)
  insert-count descending x (y ∷ ys) = ground (arith, insert-count descending x ys)

  pub sort-count :
      (d : Direction) (xs : List A) → length (filter p (sort d key xs)) ≡ length (filter p xs)
  sort-count d [] = refl
  sort-count d (x ∷ xs) = insert-count d x (sort d key xs) ∙ ground (arith, sort-count d xs)

module _ {A : Type 0} (key : A → ℕ) where
  precedes_trans :
      (d : Direction) (x y z : A)
      → precedes d key x y ≡ true
      → precedes d key y z ≡ true
      → precedes d key x z ≡ true
  precedes_trans ascending x y z h g = ground (arith, h, g)
  precedes_trans descending x y z h g = ground (arith, h, g)

  All-trans :
      (d : Direction) (x y : A) (zs : List A)
      → precedes d key x y ≡ true
      → All (λ z. precedes d key y z ≡ true) zs
      → All (λ z. precedes d key x z ≡ true) zs
  All-trans d x y [] h all = tt
  All-trans d x y (z ∷ zs) h (first, all) =
      (precedes_trans d x y z h first, All-trans d x y zs h all)

  insert-All :
      (P : A → Type 0) (d : Direction) (x : A) (ys : List A)
      → P x
      → All P ys
      → All P (insert d key x ys)
  insert-All P d x [] h all = (h, tt)
  insert-All P ascending x (y ∷ ys) h (first, all) = elim (Bool-cases (ltb (key x) (key y))) [
    | inl before ↦ rw before (h, (first, all))
    | inr after ↦ rw after (first, insert-All P ascending x ys h all)
  ]
  insert-All P descending x (y ∷ ys) h (first, all) = elim (Bool-cases (ltb (key y) (key x))) [
    | inl before ↦ rw before (h, (first, all))
    | inr after ↦ rw after (first, insert-All P descending x ys h all)
  ]

  insert-IsOrdered :
      (d : Direction) (x : A) (ys : List A)
      → IsOrdered d key ys
      → IsOrdered d key (insert d key x ys)
  insert-IsOrdered d x [] h = (tt, tt)
  insert-IsOrdered ascending x (y ∷ ys) (first, h) = elim (Bool-cases (ltb (key x) (key y))) [
    | inl before ↦
        let low : leb (key x) (key y) ≡ true = ground (arith, before) in
        rw before ((low, All-trans ascending x y ys low first), (first, h))
    | inr after ↦
        let high : leb (key y) (key x) ≡ true = ground (arith, after) in
        rw after (
          insert-All (λ z. leb (key y) (key z) ≡ true) ascending x ys high first,
          insert-IsOrdered ascending x ys h,
        )
  ]
  insert-IsOrdered descending x (y ∷ ys) (first, h) = elim (Bool-cases (ltb (key y) (key x))) [
    | inl before ↦
        let low : leb (key y) (key x) ≡ true = ground (arith, before) in
        rw before ((low, All-trans descending x y ys low first), (first, h))
    | inr after ↦
        let high : leb (key x) (key y) ≡ true = ground (arith, after) in
        rw after (
          insert-All (λ z. leb (key z) (key y) ≡ true) descending x ys high first,
          insert-IsOrdered descending x ys h,
        )
  ]

  pub sort-IsOrdered : (d : Direction) (xs : List A) → IsOrdered d key (sort d key xs)
  sort-IsOrdered d [] = tt
  sort-IsOrdered d (x ∷ xs) = insert-IsOrdered d x (sort d key xs) (sort-IsOrdered d xs)

-- A server that sorts by insertion and reports no percentile: the assumption can be met.
abbrev pub sorting : Postgres
sorting = record {
  order_by = sort;
  order_by_count = λ d key p rows. sort-count key p d rows;
  order_by-IsOrdered = λ d key rows. sort-IsOrdered key d rows;
  percentile_cont = λ percent xs. none;
}

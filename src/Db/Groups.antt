-- ===== src/Db/Groups.antt =====
-- SELECT status, count(*) … GROUP BY status, the loop that copies its rows into a map, and what the
-- map then holds. Keys are told apart by a number.
use transcodex.Base.{
  ℕ, suc, ◌+◌, ◌≡◌, ◌≢◌, refl, sym, ap, ◌∙◌, subst, List, [], ◌∷◌, ◌==◌, arith, if◌then◌else◌,
  filter, length, All, Bool-cases, inl, inr,
}

module _ {S : Type 0} (code : S → ℕ) where
  -- One more row for a key
  abbrev pub tally : S → List (S × ℕ) → List (S × ℕ)
  tally s [] = (s, 1) ∷ []
  tally s ((k, n) ∷ g) =
      let rest = tally s g in if code k == code s then (k, suc n) ∷ g else (k, n) ∷ rest

  abbrev pub group_by : List S → List (S × ℕ)
  group_by [] = []
  group_by (s ∷ ss) = tally s (group_by ss)

  -- for rows.Next() { m[key] = count }
  abbrev pub fill : List (S × ℕ) → (S → ℕ) → S → ℕ
  fill [] m = m
  fill ((k, n) ∷ g) m = fill g (λ s. if code s == code k then n else m s)

  -- total += count
  abbrev pub sum_counts : List (S × ℕ) → ℕ
  sum_counts [] = 0
  sum_counts ((_, n) ∷ g) = n + sum_counts g

  abbrev pub count : S → List S → ℕ
  count t ss = length (filter (λ s. code s == code t) ss)

  abbrev Absent : S → List (S × ℕ) → Type 0
  Absent k g = All (λ e. code e.0 ≢ code k) g

  abbrev Distinct : List (S × ℕ) → Type 0
  Distinct [] = Unit
  Distinct ((k, _) ∷ g) = Absent k g × Distinct g

  tally-Absent : (k s : S) (g : List (S × ℕ)) → code k ≢ code s → Absent k g → Absent k (tally s g)
  tally-Absent k s [] ne h = ((λ e. ground arith), tt)
  tally-Absent k s ((j, n) ∷ g) ne (h, hs) = elim (Bool-cases (code j == code s)) [
    | inl same ↦ rw same (h, hs)
    | inr differs ↦ rw differs (h, tally-Absent k s g ne hs)
  ]

  tally-Distinct : (s : S) (g : List (S × ℕ)) → Distinct g → Distinct (tally s g)
  tally-Distinct s [] h = (tt, tt)
  tally-Distinct s ((j, n) ∷ g) (h, hs) = elim (Bool-cases (code j == code s)) [
    | inl same ↦ rw same (h, hs)
    | inr differs ↦ rw differs (tally-Absent j s g (λ e. ground arith) h, tally-Distinct s g hs)
  ]

  group_by-Distinct : (ss : List S) → Distinct (group_by ss)
  group_by-Distinct [] = tt
  group_by-Distinct (s ∷ ss) = tally-Distinct s (group_by ss) (group_by-Distinct ss)

  -- What a map holds under a key depends on what it held there.
  fill-cong : (t : S) (g : List (S × ℕ)) (m m' : S → ℕ) → m t ≡ m' t → fill g m t ≡ fill g m' t
  fill-cong t [] m m' e = e
  fill-cong t ((k, n) ∷ g) m m' e = fill-cong t g _ _ (ground arith)

  fill-Absent : (t : S) (g : List (S × ℕ)) (m : S → ℕ) → Absent t g → fill g m t ≡ m t
  fill-Absent t [] m h = refl
  fill-Absent t ((k, n) ∷ g) m (h, hs) = fill-Absent t g _ hs ∙ ground arith

  fill-tally_ne :
      (t s : S) (g : List (S × ℕ)) (m : S → ℕ) → code t ≢ code s → fill (tally s g) m t ≡ fill g m t
  fill-tally_ne t s [] m ne = ground arith
  fill-tally_ne t s ((k, n) ∷ g) m ne = elim (Bool-cases (code k == code s)) [
    | inl same ↦ rw same (fill-cong t g _ _ (ground arith))
    | inr differs ↦ rw differs (fill-tally_ne t s g _ ne)
  ]

  fill-tally_self :
      (t s : S) (g : List (S × ℕ)) (m : S → ℕ)
      → code t ≡ code s
      → m t ≡ 0
      → Distinct g
      → fill (tally s g) m t ≡ suc (fill g m t)
  fill-tally_self t s [] m e z h = ground arith
  fill-tally_self t s ((k, n) ∷ g) m e z (h, hs) = elim (Bool-cases (code k == code s)) [
    | inl same ↦
        let own : code k ≡ code t = ground arith in
        let gone = subst (λ c. All (λ p. code p.0 ≢ c) g) own h in
        let first : (if code t == code k then suc n else m t) ≡ suc n = ground arith in
        let last : (if code t == code k then n else m t) ≡ n = ground arith in
        rw same ((fill-Absent t g _ gone ∙ first) ∙ sym (ap suc (fill-Absent t g _ gone ∙ last)))
    | inr differs ↦ rw differs (fill-tally_self t s g _ e (ground arith) hs)
  ]

  pub fill-group_by : (t : S) (ss : List S) → fill (group_by ss) (λ _. 0) t ≡ count t ss
  fill-group_by t [] = refl
  fill-group_by t (s ∷ ss) = elim (Bool-cases (code s == code t)) [
    | inl same ↦ rw same (
        fill-tally_self t s (group_by ss) _ (ground arith) refl (group_by-Distinct ss)
        ∙ ground (arith, fill-group_by t ss))
    | inr differs ↦
        rw differs (fill-tally_ne t s (group_by ss) _ (λ e. ground arith) ∙ fill-group_by t ss)
  ]

  sum_counts-tally : (s : S) (g : List (S × ℕ)) → sum_counts (tally s g) ≡ suc (sum_counts g)
  sum_counts-tally s [] = refl
  sum_counts-tally s ((k, n) ∷ g) = ground (arith, sum_counts-tally s g)

  pub sum_counts-group_by : (ss : List S) → sum_counts (group_by ss) ≡ length ss
  sum_counts-group_by [] = refl
  sum_counts-group_by (s ∷ ss) =
      ground (arith, sum_counts-tally s (group_by ss), sum_counts-group_by ss)

-- ===== src/Db/Select.antt =====
-- What a SELECT … WHERE lists of a table: a column of each row that the condition accepts.
use transcodex.Base.{
  ℕ, ◌≡◌, Bool, true, some, [], ◌∷◌, ◌==◌, ==_iff, All, filter, map, Bool-cases, inl, inr, subst,
}
use transcodex.Db.Table.{Table, lookup}

module _ {V B : Type 0} (p : ℕ × V → Bool) (column : ℕ × V → B) (Q : B → Type 0) where
  some_inj : (u v : V) → some u ≡ some v → u ≡ v
  some_inj u v e = cc

  -- What holds of all that is listed holds of a row that is found by its key and accepted.
  pub All-found :
      (t : Table V) (i : ℕ) (v : V)
      → lookup i t ≡ some v
      → p (i, v) ≡ true
      → All Q (map column (filter p t))
      → Q (column (i, v))
  All-found [] i v l sure h = absurd (cc)
  All-found ((k, u) ∷ t) i v l sure h = elim (Bool-cases (i == k)) [
    | inl same ↦
        let e : i ≡ k = (==_iff i k).0 same in
        let u_is_v : u ≡ v = some_inj u v (rw same at l) in
        let whole : ◌≡◌ {A = ℕ × V} (k, u) (i, v) = cc in
        let keep : p (k, u) ≡ true = cc in subst (λ e. Q (column e)) whole (rw keep at h).0
    | inr other ↦ elim (Bool-cases (p (k, u))) [
      | inl keep ↦ All-found t i v (rw other at l) sure (rw keep at h).1
      | inr drop ↦ All-found t i v (rw other at l) sure (rw drop at h)
    ]
  ]

-- ===== src/Worker/Published.antt =====
-- The rows that the loop of `completeJob` leaves of the outputs.
use transcodex.Base.{
  ℕ, ◌≡◌, refl, Bool, true, false, ◌&&◌, ◌||◌, List, [], ◌∷◌, ◌==◌, ==_refl, All, arith, Bool-cases,
  inl, inr,
}
use transcodex.Db.Schema.{OutputType, OutputRow, same_type}
use transcodex.Db.Statements.{upsert}
use transcodex.Worker.{Output}
use transcodex.Worker.Transactions.{output_row}
use transcodex.Worker.Complete.{published}

-- Is an output of the job and of the type there, from the attempt?
abbrev pub has_output : ℕ → OutputType → ℕ → List OutputRow → Bool
has_output i t a [] = false
has_output i t a (o ∷ rows) =
    (o.job_id == i && same_type o.type t && o.attempt_id == a) || has_output i t a rows

same_type_refl : (t : OutputType) → same_type t t ≡ true
same_type_refl t = ground arith

has_output-upsert_self :
    (o : OutputRow) (rows : List OutputRow)
    → has_output o.job_id o.type o.attempt_id (upsert o rows) ≡ true
has_output-upsert_self o [] =
    ground (arith, ==_refl o.job_id, same_type_refl o.type, ==_refl o.attempt_id)
has_output-upsert_self o (p ∷ rows) = ground (
  arith,
  ==_refl o.job_id,
  same_type_refl o.type,
  ==_refl o.attempt_id,
  has_output-upsert_self o rows,
)

or_mono : (x b c : Bool) → (b ≡ true → c ≡ true) → (x || b) ≡ true → (x || c) ≡ true
or_mono true b c f h = refl
or_mono false b c f h = f h

own : (x y d e : Bool) → ((x && y && d) || e) ≡ true → ((x && y && true) || e) ≡ true
own true true d e h = refl
own true false d e h = h
own false y d e h = h

has_output-upsert :
    (i : ℕ) (t : OutputType) (o : OutputRow) (rows : List OutputRow)
    → has_output i t o.attempt_id rows ≡ true
    → has_output i t o.attempt_id (upsert o rows) ≡ true
has_output-upsert i t o [] h = absurd (cc)
has_output-upsert i t o (p ∷ rows) h =
    elim (Bool-cases (p.job_id == o.job_id && same_type p.type o.type)) [
      | inl hit ↦
          rw (hit, ==_refl o.attempt_id)
            (own (p.job_id == i) (same_type p.type t) (p.attempt_id == o.attempt_id) _ h)
      | inr miss ↦ rw miss (or_mono _ _ _ (has_output-upsert i t o rows) h)
    ]

module _ (i a now : ℕ) where
  has_output-published :
      (t : OutputType) (os : List Output) (rows : List OutputRow)
      → has_output i t a rows ≡ true
      → has_output i t a (published i a now os rows) ≡ true
  has_output-published t [] rows h = h
  has_output-published t (o ∷ os) rows h =
      has_output-published t os _ (has_output-upsert i t (output_row i a now o) rows h)

  pub published-All :
      (os : List Output) (rows : List OutputRow)
      → All (λ o. has_output i o.type a (published i a now os rows) ≡ true) os
  published-All [] rows = tt
  published-All (o ∷ os) rows = (
    has_output-published o.type os _ (has_output-upsert_self (output_row i a now o) rows),
    published-All os _,
  )

-- ===== src/Redis/Tiers.antt =====
-- A sorted set whose members are their own scores, highest first, as a strictly falling list.
use transcodex.Base.{
  ◌+◌, ◌<◌, ◌≡◌, refl, Bool, true, false, not, ◌&&◌, ◌||◌, List, [], ◌∷◌, if◌then◌else◌, All, arith,
}
use transcodex.Base.Int.{ℤ, eqb_ℤ, eqb_ℤ_iff, ltb_ℤ, pos_part, neg_part, ◌≤ℤ◌}

abbrev pub has_tier : ℤ → List ℤ → Bool
has_tier p [] = false
has_tier p (t ∷ ts) = eqb_ℤ p t || has_tier p ts

abbrev pub insert_tier : ℤ → List ℤ → List ℤ
insert_tier p [] = p ∷ []
insert_tier p (t ∷ ts) =
    if eqb_ℤ p t then t ∷ ts else if ltb_ℤ t p then p ∷ t ∷ ts else t ∷ insert_tier p ts

abbrev pub remove_tier : ℤ → List ℤ → List ℤ
remove_tier p [] = []
remove_tier p (t ∷ ts) = if eqb_ℤ p t then remove_tier p ts else t ∷ remove_tier p ts

infix 50 ◌<ℤ◌
abbrev pub ◌<ℤ◌ : ℤ → ℤ → Type 0
a <ℤ b = pos_part a + neg_part b < pos_part b + neg_part a

abbrev pub Falling : List ℤ → Type 0
Falling [] = Unit {0}
Falling (t ∷ ts) = All (λ s. s <ℤ t) ts × Falling ts

pub has_tier-insert_tier :
    (s p : ℤ) (ts : List ℤ) → has_tier s (insert_tier p ts) ≡ (eqb_ℤ s p || has_tier s ts)
has_tier-insert_tier s p [] = refl
has_tier-insert_tier s p (t ∷ ts) =
    ground (arith, has_tier-insert_tier s p ts, eqb_ℤ_iff s p, eqb_ℤ_iff s t, eqb_ℤ_iff p t)

pub has_tier-remove_tier :
    (s p : ℤ) (ts : List ℤ) → has_tier s (remove_tier p ts) ≡ (not (eqb_ℤ s p) && has_tier s ts)
has_tier-remove_tier s p [] = ground arith
has_tier-remove_tier s p (t ∷ ts) =
    ground (arith, has_tier-remove_tier s p ts, eqb_ℤ_iff s p, eqb_ℤ_iff s t, eqb_ℤ_iff p t)

All-insert_tier :
    (u p : ℤ) (ts : List ℤ) → p <ℤ u → All (λ s. s <ℤ u) ts → All (λ s. s <ℤ u) (insert_tier p ts)
All-insert_tier u p [] h a = (h, tt)
All-insert_tier u p (t ∷ ts) h a = ground (arith, All-insert_tier u p ts h a.1)

All-remove_tier :
    (u p : ℤ) (ts : List ℤ) → All (λ s. s <ℤ u) ts → All (λ s. s <ℤ u) (remove_tier p ts)
All-remove_tier u p [] a = tt
All-remove_tier u p (t ∷ ts) a = ground (arith, All-remove_tier u p ts a.1)

All-lt_trans : (u t : ℤ) (ts : List ℤ) → t <ℤ u → All (λ s. s <ℤ t) ts → All (λ s. s <ℤ u) ts
All-lt_trans u t [] h a = tt
All-lt_trans u t (s ∷ ts) h a = (omega arith, All-lt_trans u t ts h a.1)

pub insert_tier-Falling : (p : ℤ) (ts : List ℤ) → Falling ts → Falling (insert_tier p ts)
insert_tier-Falling p [] f = (tt, tt)
insert_tier-Falling p (t ∷ ts) f = ground (
  arith,
  insert_tier-Falling p ts f.1,
  All-insert_tier t p ts,
  All-lt_trans p t ts,
  eqb_ℤ_iff p t,
)

pub remove_tier-Falling : (p : ℤ) (ts : List ℤ) → Falling ts → Falling (remove_tier p ts)
remove_tier-Falling p [] f = tt
remove_tier-Falling p (t ∷ ts) f =
    ground (arith, remove_tier-Falling p ts f.1, All-remove_tier t p ts f.0)

-- The first of a falling list is its greatest member.
pub has_tier-le :
    (s t : ℤ) (ts : List ℤ) → All (λ r. r <ℤ t) ts → has_tier s (t ∷ ts) ≡ true → s ≤ℤ t
has_tier-le s t [] a h = ground arith
has_tier-le s t (r ∷ ts) a h = ground (arith, has_tier-le s t ts a.1, eqb_ℤ_iff s t, eqb_ℤ_iff s r)

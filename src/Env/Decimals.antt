-- ===== src/Env/Decimals.antt =====
-- The decimal texts of numbers, and that Go's Atoi reads them back.
use transcodex.Base.{
  ℕ, zero, suc, ◌+◌, ◌*◌, ◌/◌, ◌%◌, ◌≤◌, ◌<◌, ◌≡◌, refl, ap, ◌∙◌, subst, inl, inr, Bool, true,
  false, none, some, [], ◌∷◌, arith, Bool-cases, leb, ltb, if◌then◌else◌, ◌==◌, ◌&&◌, All, ◌++◌,
}
use transcodex.Base.Int.{ℤ, pos, negsuc, ◌≤ℤ◌}
use transcodex.Base.Text.{atoi, read_digits, read_number, is_digit, max_int64}
use transcodex.Db.Schema.{Text}
use transcodex.Env.{is_space, is_empty, trim_left, trim_right, trim_space}

-- The digits of a number before a text, on fuel of at least the number
abbrev show_digits : ℕ → ℕ → Text → Text
show_digits zero n t = (48 + n) ∷ t
show_digits (suc fuel) n t =
    let rest = show_digits fuel (n / 10) ((48 + n % 10) ∷ t) in
    if ltb n 10 then (48 + n) ∷ t else rest

-- The decimal text of an integer
abbrev pub show : ℤ → Text
show (pos n) = show_digits n n []
show (negsuc n) = 45 ∷ show_digits (suc n) (suc n) []

read_digit :
    (m d n : ℕ) (t : Text)
    → d < 10
    → m * 10 + d ≡ n
    → read_digits m ((48 + d) ∷ t) ≡ read_digits n t
read_digit m d n t small e =
    let digit : is_digit (48 + d) ≡ true = ground arith in
    rw digit (ap (λ k. read_digits k t) (omega (arith, e)))

read-show_digits :
    (fuel n : ℕ) (t : Text) → n ≤ fuel → read_digits 0 (show_digits fuel n t) ≡ read_digits n t
read-show_digits zero n t h = read_digit 0 n n t (omega (arith, h)) (omega arith)
read-show_digits (suc fuel) n t h = elim (Bool-cases (ltb n 10)) [
  | inl small ↦ rw small (read_digit 0 n n t (ground arith) (omega arith))
  | inr large ↦
      let big : 10 ≤ n = ground arith in
      rw large (
        read-show_digits fuel (n / 10) ((48 + n % 10) ∷ t) (omega (arith, h, big))
        ∙ read_digit (n / 10) (n % 10) n t (omega arith) (omega arith))
]

-- A text of digits has a digit at each end, so neither a sign nor a space.
starts_digit :
    (fuel n : ℕ) (t : Text)
    → n ≤ fuel
    → (d : ℕ) × (u : Text) × (show_digits fuel n t ≡ (48 + d) ∷ u) × (d < 10)
starts_digit zero n t h = (n, t, refl, omega (arith, h))
starts_digit (suc fuel) n t h = elim (Bool-cases (ltb n 10)) [
  | inl small ↦ (n, t, rw small refl, ground arith)
  | inr large ↦
      let big : 10 ≤ n = ground arith in
      rw large (starts_digit fuel (n / 10) ((48 + n % 10) ∷ t) (omega (arith, h, big)))
]

read_number-show : (n : ℕ) → read_number (show_digits n n []) ≡ some n
read_number-show n =
    let (d, u, e, small) = starts_digit n n [] (omega arith) in
    let r = read-show_digits n n [] (omega arith) in rw e (rw e at r)

fits :
    (z : ℕ → ℤ) (n : ℕ)
    → n ≤ max_int64
    → (if leb n max_int64 then some (z n) else none) ≡ some (z n)
fits z n h = let e : leb n max_int64 ≡ true = ground arith in rw e refl

-- Atoi reads back the decimal text of every number of 64 bits.
pub atoi-show : (z : ℤ) → z ≤ℤ pos max_int64 → negsuc max_int64 ≤ℤ z → atoi (show z) ≡ some z
unfolding atoi
atoi-show (pos n) high low =
    let (d, u, e, small) = starts_digit n n [] (omega arith) in
    let r = read_number-show n in
    let r' = rw e at r in
    let plus : ((48 + d) == 43) ≡ false = ground arith in
    let minus : ((48 + d) == 45) ≡ false = ground arith in
    rw (e, minus, plus, r') (fits pos n (omega (arith, high)))
atoi-show (negsuc n) high low = rw (read_number-show (suc n)) (fits negsuc n (omega (arith, low)))

-- Nothing of a decimal text is white space.
abbrev IsSolid : Text → Type 0
IsSolid t = All (λ c. is_space c ≡ false) t

digit_solid : (d : ℕ) → d < 10 → is_space (48 + d) ≡ false
digit_solid d h = ground arith

show_digits-IsSolid :
    (fuel n : ℕ) (t : Text) → n ≤ fuel → IsSolid t → IsSolid (show_digits fuel n t)
show_digits-IsSolid zero n t h s = (digit_solid n (omega (arith, h)), s)
show_digits-IsSolid (suc fuel) n t h s = elim (Bool-cases (ltb n 10)) [
  | inl small ↦ rw small (digit_solid n (ground arith), s)
  | inr large ↦
      let big : 10 ≤ n = ground arith in
      rw large (
        show_digits-IsSolid fuel (n / 10) ((48 + n % 10) ∷ t) (omega (arith, h, big))
          (digit_solid (n % 10) (omega arith), s))
]

show-IsSolid : (z : ℤ) → IsSolid (show z)
show-IsSolid (pos n) = show_digits-IsSolid n n [] (omega arith) tt
show-IsSolid (negsuc n) = (refl, show_digits-IsSolid (suc n) (suc n) [] (omega arith) tt)

abbrev pub IsBlank : Text → Type 0
IsBlank t = All (λ c. is_space c ≡ true) t

trim_right-IsBlank : (t : Text) → IsBlank t → trim_right is_space t ≡ []
trim_right-IsBlank [] h = refl
trim_right-IsBlank (c ∷ t) (h, hs) = rw (trim_right-IsBlank t hs, h) refl

trim_right-IsSolid :
    (t after : Text) → IsSolid t → IsBlank after → trim_right is_space (t ++ after) ≡ t
trim_right-IsSolid [] after h b = trim_right-IsBlank after b
trim_right-IsSolid (c ∷ t) after (h, hs) b =
    rw (trim_right-IsSolid t after hs b, h) (kept (is_empty t))
  where
    kept : (x : Bool) → (if x && false then [] else c ∷ t) ≡ c ∷ t
    kept true = refl
    kept false = refl

trim_left-IsBlank :
    (before t : Text) → IsBlank before → trim_left is_space (before ++ t) ≡ trim_left is_space t
trim_left-IsBlank [] t h = refl
trim_left-IsBlank (c ∷ before) t (h, hs) = rw h (trim_left-IsBlank before t hs)

-- White space around a text without any is trimmed off.
trim_space-IsSolid :
    (before t after : Text) (c : ℕ)
    → IsBlank before
    → IsSolid (c ∷ t)
    → IsBlank after
    → trim_space (before ++ ((c ∷ t) ++ after)) ≡ c ∷ t
trim_space-IsSolid before t after c b (h, hs) b' =
    let rest : trim_left is_space ((c ∷ t) ++ after) ≡ (c ∷ t) ++ after = rw h refl in
    let left : trim_left is_space (before ++ ((c ∷ t) ++ after)) ≡ (c ∷ t) ++ after =
      trim_left-IsBlank before ((c ∷ t) ++ after) b ∙ rest in
    let right : trim_right is_space ((c ∷ t) ++ after) ≡ c ∷ t =
      trim_right-IsSolid (c ∷ t) after (h, hs) b' in
    ap (trim_right is_space) left ∙ right

show_cons : (z : ℤ) → (c : ℕ) × (t : Text) × (show z ≡ c ∷ t)
show_cons (pos n) = let (d, t, e, _) = starts_digit n n [] (omega arith) in (48 + d, t, e)
show_cons (negsuc n) = (45, show_digits (suc n) (suc n) [], refl)

pub trim_space-show :
    (before : Text) (z : ℤ) (after : Text)
    → IsBlank before
    → IsBlank after
    → trim_space (before ++ (show z ++ after)) ≡ show z
trim_space-show before z after b b' =
    let (c, t, e) = show_cons z in
    let solid : IsSolid (c ∷ t) = subst IsSolid e (show-IsSolid z) in
    rw e (trim_space-IsSolid before t after c b solid b')

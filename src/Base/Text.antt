-- ===== src/Base/Text.antt =====
-- A text as the list of its characters, and what Go's strconv reads in one.
use Prim.Native.Char.{code}
use Prim.Native.String.{String}
use transcodex.Base.{
  ℕ, zero, suc, ◌+◌, ◌-◌, ◌*◌, Bool, true, false, ◌&&◌, List, [], ◌∷◌, ◌==◌, Option, none, some,
  leb, if◌then◌else◌,
}
use transcodex.Base.Int.{ℤ, pos, negsuc}

abbrev pub codes : String → List ℕ
codes String.[] = []
codes (String.◌∷◌ c s) = code c ∷ codes s

abbrev pub same_text : List ℕ → List ℕ → Bool
same_text [] [] = true
same_text (x ∷ xs) (y ∷ ys) = x == y && same_text xs ys
same_text _ _ = false

-- 0 is code 48.
abbrev pub is_digit : ℕ → Bool
is_digit c = leb 48 c && leb c 57

-- The number that decimal digits continue, most significant first.
abbrev pub read_digits : ℕ → List ℕ → Option ℕ
read_digits n [] = some n
read_digits n (c ∷ t) =
    let rest = read_digits (n * 10 + (c - 48)) t in if is_digit c then rest else none

abbrev pub read_number : List ℕ → Option ℕ
read_number [] = none
read_number (c ∷ t) = read_digits 0 (c ∷ t)

abbrev pub max_int64 : ℕ
max_int64 = 9223372036854775807

-- The bounds of int64 on either side of zero
abbrev pub positive : Option ℕ → Option ℤ
positive none = none
positive (some n) = if leb n max_int64 then some (pos n) else none

abbrev pub negative : Option ℕ → Option ℤ
negative none = none
negative (some zero) = some (pos 0)
negative (some (suc n)) = if leb n max_int64 then some (negsuc n) else none

-- strconv.Atoi and strconv.ParseInt to base 10 in 64 bits: an optional sign, and at least one digit
unfoldable pub atoi : List ℕ → Option ℤ
atoi [] = none
atoi (c ∷ t) =
    if c == 45
    then negative (read_number t)
    else if c == 43
    then positive (read_number t)
    else positive (read_number (c ∷ t))

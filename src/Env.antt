-- ===== src/Env.antt =====
-- How the three programs read their environment: the helpers `env`, `envInt`, `envInt64`, `envSeconds`
-- and `envList`, which their config.go files share, over Go's strings package. A duration is a
-- signed number of nanoseconds in 64 bits.
use transcodex.Base.{
  ℕ, ◌+◌, ◌-◌, ◌*◌, ◌%◌, Bool, true, false, not, ◌&&◌, ◌||◌, Option, none, some, List, [], ◌∷◌, leb,
  ltb, ◌==◌, if◌then◌else◌,
}
use transcodex.Base.Int.{ℤ, pos, negsuc, pos_part, ltb_ℤ}
use transcodex.Base.Text.{atoi}
use transcodex.Db.Schema.{Text}
pub mod Decimals
pub mod Seconds
pub mod Entries

-- os.Getenv: empty where the variable is not set
abbrev pub Environment : Type 0
Environment = Text → Text

abbrev pub is_empty : Text → Bool
is_empty [] = true
is_empty (_ ∷ _) = false

-- `env`
abbrev pub env : Environment → Text → Text → Text
env e key fallback = if is_empty (e key) then fallback else e key

-- `envInt` and `envInt64`
abbrev pub env_int : Environment → Text → ℤ → ℤ
env_int e key fallback = elim (atoi (e key)) [ none ↦ fallback | some value ↦ value ]

-- The 64 bits of a product that is not negative, as a signed number
abbrev pub wrap : ℕ → ℤ
wrap n =
    let bits = n % 18446744073709551616 in
    if ltb bits 9223372036854775808 then pos bits else negsuc (18446744073709551615 - bits)

-- Twice a duration
abbrev pub double : ℤ → ℤ
double (pos n) = wrap (n * 2)
double (negsuc n) =
    let bits = (n * 2 + 1) % 18446744073709551616 in
    if ltb bits 9223372036854775808 then negsuc bits else pos (18446744073709551615 - bits)

-- time.Second
abbrev pub second : ℕ
second = 1000000000

abbrev pub seconds_or : Option ℤ → ℤ → ℤ
seconds_or none fallback = fallback
seconds_or (some value) fallback =
    if not (ltb_ℤ (pos 0) value) then fallback else wrap (pos_part value * second)

-- `envSeconds`
unfoldable pub env_seconds : Environment → Text → ℤ → ℤ
env_seconds e key fallback = seconds_or (atoi (e key)) fallback

-- The white space of unicode.IsSpace
abbrev pub is_space : ℕ → Bool
is_space c =
    (leb 9 c && leb c 13)
    || c == 32
    || c == 133
    || c == 160
    || c == 5760
    || (leb 8192 c && leb c 8202)
    || c == 8232
    || c == 8233
    || c == 8239
    || c == 8287
    || c == 12288

abbrev pub trim_left : (ℕ → Bool) → Text → Text
trim_left cut [] = []
trim_left cut (c ∷ t) = let rest = trim_left cut t in if cut c then rest else c ∷ t

abbrev pub trim_right : (ℕ → Bool) → Text → Text
trim_right cut [] = []
trim_right cut (c ∷ t) =
    let rest = trim_right cut t in if is_empty rest && cut c then [] else c ∷ rest

-- strings.TrimSpace
abbrev pub trim_space : Text → Text
trim_space t = trim_right is_space (trim_left is_space t)

-- the cutset "/"
abbrev pub is_slash : ℕ → Bool
is_slash c = c == 47

-- strings.Trim(t, "/")
abbrev pub trim_slashes : Text → Text
trim_slashes t = trim_right is_slash (trim_left is_slash t)

-- strings.Split(t, ","): the parts, the first of them apart
abbrev pub split : Text → Text × List Text
split [] = ([], [])
split (c ∷ t) =
    let (part, parts) = split t in if c == 44 then ([], part ∷ parts) else (c ∷ part, parts)

-- The loop of `envList`
abbrev pub values_of : List Text → List Text
values_of [] = []
values_of (part ∷ parts) =
    let rest = values_of parts in
    if is_empty (trim_space part) then rest else trim_space part ∷ rest

abbrev pub or_fallback : List Text → List Text → List Text
or_fallback [] fallback = fallback
or_fallback (v ∷ vs) fallback = v ∷ vs

-- `envList`
unfoldable pub env_list : Environment → Text → List Text → List Text
env_list e key fallback =
    if is_empty (e key)
    then fallback
    else let (part, parts) = split (e key) in or_fallback (values_of (part ∷ parts)) fallback

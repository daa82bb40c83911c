-- ===== src/Env/Seconds.antt =====
-- What `envSeconds` reads: positive durations, for texts that a duration in nanoseconds can hold.
use transcodex.Base.{
  ℕ, zero, suc, ◌*◌, ◌≤◌, ◌<◌, ◌≡◌, refl, ap, ◌∙◌, inl, inr, true, false, some, arith, Option-cases,
  ltb, ◌%◌,
}
use transcodex.Base.Int.{ℤ, pos, negsuc, ltb_ℤ, ◌≤ℤ◌}
use transcodex.Base.Text.{atoi}
use transcodex.Db.Schema.{Text}
use transcodex.Env.Decimals.{show, atoi-show}
use transcodex.Env.{Environment, env_seconds, seconds_or, wrap, second}

pub wrap_small : (n : ℕ) → n < 9223372036854775808 → wrap n ≡ pos n
wrap_small n h =
    let e : n % 18446744073709551616 ≡ n = omega (arith, h) in
    let small : ltb n 9223372036854775808 ≡ true = ground arith in rw (e, small) refl

seconds_or_read :
    (n : ℕ) (fallback : ℤ)
    → 1 ≤ n
    → n ≤ 9223372036
    → seconds_or (some (pos n)) fallback ≡ pos (n * second)
seconds_or_read n fallback low high =
    let some_time : ltb_ℤ (pos 0) (pos n) ≡ true = ground arith in
    rw some_time (wrap_small (n * second) (omega (arith, high)))

-- A variable that holds the decimal text of a number of seconds, from one to the most that a
-- duration in nanoseconds can hold, is read as that many seconds.
env_seconds-show :
    (e : Environment) (key : Text) (fallback : ℤ) (n : ℕ)
    → 1 ≤ n
    → n ≤ 9223372036
    → e key ≡ show (pos n)
    → env_seconds e key fallback ≡ pos (n * second)
unfolding env_seconds
env_seconds-show e key fallback n low high h =
    ap (λ t. seconds_or (atoi t) fallback) h
    ∙ ap (λ o. seconds_or o fallback) (atoi-show (pos n) (omega (arith, high)) (omega arith))
    ∙ seconds_or_read n fallback low high

read-positive :
    (value fallback : ℤ)
    → pos 1 ≤ℤ fallback
    → ((n : ℕ) → some value ≡ some (pos n) → n ≤ 9223372036)
    → pos 1 ≤ℤ seconds_or (some value) fallback
read-positive (negsuc n) fallback low small =
    let none_left : ltb_ℤ (pos 0) (negsuc n) ≡ false = ground arith in rw none_left low
read-positive (pos zero) fallback low small = low
read-positive (pos (suc n)) fallback low small =
    rw (seconds_or_read (suc n) fallback (omega arith) (small (suc n) refl)) (omega arith)

-- A duration that is read is positive.
pub env_seconds-positive :
    (e : Environment) (key : Text) (fallback : ℤ)
    → pos 1 ≤ℤ fallback
    → ((n : ℕ) → atoi (e key) ≡ some (pos n) → n ≤ 9223372036)
    → pos 1 ≤ℤ env_seconds e key fallback
unfolding env_seconds
env_seconds-positive e key fallback low small = elim (Option-cases (atoi (e key))) [
  | inl h ↦ rw h low
  | inr (value, h) ↦ rw h (read-positive value fallback low (λ n same. small n (h ∙ same)))
]

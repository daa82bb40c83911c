-- ===== src/Tests/Limits.antt =====
-- The size-limited reader over five bytes in memory.
use transcodex.Base.{
  true, ℕ, zero, suc, ◌≤◌, ◌<◌, ◌≡◌, ◌≢◌, refl, ap, List, [], ◌∷◌, ◌++◌, length, take, arith,
}
use transcodex.Base.Int.{pos}
use transcodex.Base.Text.{codes}
use transcodex.Api.Upload.{FilePart}
use transcodex.Api.Limit.{
  Signal, more, eof, failed, Source, over, unfinished, consume, read_limited,
}
use transcodex.Api.Limit.Ends.{IsPrefix, consume_ends}
use transcodex.Api.Limit.Whole.{consume-is_too_large}
use transcodex.Tests.Samples.{api_config}

abbrev drop : ℕ → List ℕ → List ℕ
drop zero xs = xs
drop (suc n) [] = []
drop (suc n) (x ∷ xs) = drop n xs

abbrev ended : List ℕ → Signal
ended [] = eof
ended (x ∷ xs) = more

take-drop : (n : ℕ) (xs : List ℕ) → xs ≡ take n xs ++ drop n xs
take-drop zero xs = refl
take-drop (suc n) [] = refl
take-drop (suc n) (x ∷ xs) = ap (λ l. x ∷ l) (take-drop n xs)

length-take : (n : ℕ) (xs : List ℕ) → length (take n xs) ≤ n
length-take zero xs = omega arith
length-take (suc n) [] = omega arith
length-take (suc n) (x ∷ xs) = omega (arith, length-take n xs)

take_some : (n : ℕ) (xs : List ℕ) → 0 < n → ended (drop n xs) ≡ more → 0 < length (take n xs)
take_some zero xs h e = absurd (omega arith)
take_some (suc n) [] h e = absurd (cc)
take_some (suc n) (x ∷ xs) h e = omega arith

ended_nil : (xs : List ℕ) → ended xs ≡ eof → xs ≡ []
ended_nil [] e = refl
ended_nil (x ∷ xs) e = absurd (cc)

ended_sound : (xs : List ℕ) → ended xs ≢ failed
ended_sound [] e = absurd (cc)
ended_sound (x ∷ xs) e = absurd (cc)

-- A reader over bytes in memory, which reports io.EOF together with the last of them
abbrev memory : Source
memory = record {
  State = List ℕ;
  read = λ n xs. (take n xs, ended (drop n xs), drop n xs);
  content = λ xs. xs;
  read_content = take-drop;
  read_bounded = length-take;
  read_progress = take_some;
  read_eof = λ n xs e. ended_nil (drop n xs) e;
}

abbrev bytes : List ℕ
bytes = 10 ∷ 20 ∷ 30 ∷ 40 ∷ 50 ∷ []

abbrev file : FilePart
file = record {
  base_name = codes "cat.mp4";
  content_type = codes "video/mp4";
  detected_type = codes "video/mp4";
  size = 5;
  is_readable = true;
  is_stored = true;
}

consume_ends_example :
    let out = consume memory 6 (λ k. 1) 0 (record { reader = bytes; limit = pos 3; count = 0 }) in
    (out.1 ≢ unfinished) × IsPrefix out.0 bytes × (length out.0 ≤ 3)
consume_ends_example =
    consume_ends memory (record api_config { upload_size_limit = pos 3 }) (λ k. 1) bytes

consume-is_too_large_example :
    consume memory 6 (λ k. 1) 0 (record { reader = bytes; limit = pos 3; count = 0 })
    ≡ (10 ∷ 20 ∷ 30 ∷ [], over)
consume-is_too_large_example =
    consume-is_too_large memory (record api_config { upload_size_limit = pos 3 }) file (λ k. 1)
      bytes refl (λ n xs. ended_sound (drop n xs))

consume_runs :
    consume memory 6 (λ k. 1) 0 (record { reader = bytes; limit = pos 3; count = 0 })
    ≡ (10 ∷ 20 ∷ 30 ∷ [], over)
unfolding consume read_limited
consume_runs = refl

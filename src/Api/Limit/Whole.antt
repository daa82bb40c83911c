-- ===== src/Api/Limit/Whole.antt =====
-- The size-limited reader over a source that does not fail, against the test that `storeUpload`'s
-- model makes.
use transcodex.Base.{
  ℕ, zero, suc, ◌≤◌, ◌<◌, ◌≡◌, ◌≢◌, refl, ap, inl, inr, true, false, List, [], ◌∷◌, ◌++◌, length,
  if◌then◌else◌, arith, Bool-cases, take,
}
use transcodex.Base.Int.{pos, pos_part, ltb_ℤ}
use transcodex.Api.{Config}
use transcodex.Api.Upload.{FilePart, is_too_large}
use transcodex.Api.Limit.{
  Signal, more, eof, failed, Source, SizeLimitedReader, read_limited, Ending, complete, broken,
  over, unfinished, consume, after_read, probe, counted,
}
use transcodex.Api.Limit.Ends.{Good, fresh, fresh-Good}

fits :
    (c : Config) (f : FilePart) (n : ℕ)
    → f.size ≡ n
    → n ≤ pos_part c.upload_size_limit
    → is_too_large c f ≡ false
fits c f n e h = ground arith

exceeds :
    (c : Config) (f : FilePart) (n : ℕ)
    → f.size ≡ n
    → pos_part c.upload_size_limit < n
    → is_too_large c f ≡ true
exceeds c f n e h = ground arith

take-append : (xs ys : List ℕ) → take (length xs) (xs ++ ys) ≡ xs
take-append [] ys = refl
take-append (x ∷ xs) ys = ap (λ l. x ∷ l) (take-append xs ys)

module _ (s : Source) where
  -- A source that does not fail
  abbrev IsSound : Type 0
  IsSound = (n : ℕ) (t : s.State) → (s.read n t).1 ≢ failed

  probe_sound :
      (r : SizeLimitedReader s) (on : SizeLimitedReader s → List ℕ × Ending)
      (out : List ℕ × Signal × s.State)
      → out.1 ≢ failed
      → ((next : SizeLimitedReader s) → (on next).1 ≢ broken)
      → (after_read s (probe s r out) on).1 ≢ broken
  probe_sound r on ([], more, t) h ih e = ih _ e
  probe_sound r on ([], eof, t) h ih e = absurd (cc)
  probe_sound r on ([], failed, t) h ih e = h refl
  probe_sound r on (b ∷ bytes, signal, t) h ih e = absurd (cc)

  counted_sound :
      (r : SizeLimitedReader s) (on : SizeLimitedReader s → List ℕ × Ending)
      (out : List ℕ × Signal × s.State)
      → out.1 ≢ failed
      → ((next : SizeLimitedReader s) → (on next).1 ≢ broken)
      → (after_read s (counted s r out) on).1 ≢ broken
  counted_sound r on (bytes, more, t) h ih e = ih _ e
  counted_sound r on (bytes, eof, t) h ih e = absurd (cc)
  counted_sound r on (bytes, failed, t) h ih e = h refl

  consume_sound :
      (fuel : ℕ) (room : ℕ → ℕ) (k : ℕ) (r : SizeLimitedReader s)
      → IsSound
      → (consume s fuel room k r).1 ≢ broken
  unfolding consume read_limited
  consume_sound zero room k r sound = λ e. absurd (cc)
  consume_sound (suc fuel) room k r sound = elim (Bool-cases (ltb_ℤ (pos r.count) r.limit)) [
    | inl below ↦ rw below (
        counted_sound r _ _ (sound _ r.reader) (λ next. consume_sound fuel room (suc k) next sound))
    | inr reached ↦
        rw reached (
          probe_sound r _ _ (sound 1 r.reader) (λ next. consume_sound fuel room (suc k) next sound))
  ]

  Good-whole :
      (c : Config) (f : FilePart) (xs : List ℕ) (out : List ℕ × Ending)
      → f.size ≡ length xs
      → out.1 ≢ broken
      → Good xs (pos_part c.upload_size_limit) out
      → out ≡ (
          if is_too_large c f
          then (take (pos_part c.upload_size_limit) xs, over)
          else (xs, complete))
  Good-whole c f xs (bytes, complete) size whole (e, small) =
      rw (fits c f (length xs) size small, e) refl
  Good-whole c f xs (bytes, broken) size whole g = absurd (whole refl)
  Good-whole c f xs (bytes, over) size whole ((rest, p), all, large) =
      let start : take (pos_part c.upload_size_limit) xs ≡ bytes =
        rw p (rw (← all) (take-append bytes rest)) in
      rw (exceeds c f (length xs) size large, start) refl
  Good-whole c f xs (bytes, unfinished) size whole g = absurd g

  -- The test of the model of `storeUpload` is what the reader does: over a source that does not fail
  -- and has as many bytes as the file, the consumer is told errUploadTooLarge, after as many bytes as
  -- the limit allows, where the file is not empty and larger than the limit, and is handed the
  -- whole file and then io.EOF otherwise.
  pub consume-is_too_large :
      (c : Config) (f : FilePart) (room : ℕ → ℕ) (t : s.State)
      → f.size ≡ length (s.content t)
      → ((n : ℕ) (u : s.State) → (s.read n u).1 ≢ failed)
      → consume s
          (suc (length (s.content t)))
          room
          0
          (record { reader = t; limit = c.upload_size_limit; count = 0 })
        ≡ (if is_too_large c f
            then (take (pos_part c.upload_size_limit) (s.content t), over)
            else (s.content t, complete))
  consume-is_too_large c f room t size sound =
      Good-whole c f (s.content t) _ size (consume_sound _ room 0 (fresh s c t) sound)
        (fresh-Good s c room t)

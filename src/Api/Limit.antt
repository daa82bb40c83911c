-- ===== src/Api/Limit.antt =====
-- `sizeLimitedReader` of api/internal/server/handlers.go, between the part of the form that it reads
-- from and the consumer of the upload, which reads until the first error.
use transcodex.Base.{
  ℕ, zero, suc, ◌+◌, ◌-◌, ◌≤◌, ◌<◌, ◌≡◌, List, [], ◌∷◌, ◌++◌, length, ltb, leb, if◌then◌else◌, not,
}
use transcodex.Base.Int.{ℤ, pos, pos_part, ltb_ℤ}
pub mod Ends
pub mod Whole

-- Go's nil, io.EOF, and any other error of a reader
pub data Signal : Type 0 where
  more eof failed : Signal

-- An io.Reader, as its documentation describes one: `read n` hands out the next bytes, at most n of
-- them, and after io.EOF there is no more. It makes no empty read without an error, of a positive
-- number of bytes: the documentation does not rule that out, and discourages it.
pub record Source : Type 1 where
  pub State : Type 0
  pub read : ℕ → State → List ℕ × Signal × State
  pub content : State → List ℕ
  pub read_content : (n : ℕ) (s : State) → content s ≡ (read n s).0 ++ content (read n s).2
  pub read_bounded : (n : ℕ) (s : State) → length (read n s).0 ≤ n
  pub read_progress : (n : ℕ) (s : State) → 0 < n → (read n s).1 ≡ more → 0 < length (read n s).0
  pub read_eof : (n : ℕ) (s : State) → (read n s).1 ≡ eof → content (read n s).2 ≡ []

-- What the limited reader reports: what its source reports, or errUploadTooLarge.
pub data Report : Type 0 where
  from_source : Signal → Report
  too_large : Report

module _ (s : Source) where
  -- `sizeLimitedReader`; its field `read` is the count of the bytes handed out
  pub record SizeLimitedReader : Type 0 where
    pub reader : s.State
    pub limit : ℤ
    pub count : ℕ

  abbrev pub probe :
      SizeLimitedReader → List ℕ × Signal × s.State → List ℕ × Report × SizeLimitedReader
  probe r ([], signal, t) = ([], from_source signal, record r { reader = t })
  probe r (_ ∷ _, signal, t) = ([], too_large, record r { reader = t })

  abbrev pub counted :
      SizeLimitedReader → List ℕ × Signal × s.State → List ℕ × Report × SizeLimitedReader
  counted r (bytes, signal, t) =
      (bytes, from_source signal, record r { reader = t; count = r.count + length bytes })

  -- `Read`, into a buffer of n bytes
  unfoldable pub read_limited : ℕ → SizeLimitedReader → List ℕ × Report × SizeLimitedReader
  read_limited n r =
      let remaining = pos_part r.limit - r.count in
      if not (ltb_ℤ (pos r.count) r.limit)
      then probe r (s.read 1 r.reader)
      else counted r (s.read (if ltb remaining n then remaining else n) r.reader)

-- How a consumer ends that reads until the first error, or that it has not ended
pub data Ending : Type 0 where
  complete broken over unfinished : Ending

module _ (s : Source) where
  abbrev pub after_read :
      List ℕ × Report × SizeLimitedReader s
      → (SizeLimitedReader s → List ℕ × Ending)
      → List ℕ × Ending
  after_read (bytes, from_source more, r) on = let (rest, ending) = on r in (bytes ++ rest, ending)
  after_read (bytes, from_source eof, r) on = (bytes, complete)
  after_read (bytes, from_source failed, r) on = (bytes, broken)
  after_read (bytes, too_large, r) on = (bytes, over)

  -- The consumer: `suc (room k)` is the size of the buffer of its k-th read.
  unfoldable pub consume : ℕ → (ℕ → ℕ) → ℕ → SizeLimitedReader s → List ℕ × Ending
  consume zero room k r = ([], unfinished)
  consume (suc fuel) room k r =
      after_read (read_limited s (suc (room k)) r) (consume fuel room (suc k))

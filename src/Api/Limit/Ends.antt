-- ===== src/Api/Limit/Ends.antt =====
-- Where the size-limited reader ends, whatever its source and the sizes of the buffers.
use transcodex.Base.{
  ℕ, zero, suc, ◌+◌, ◌-◌, ◌≤◌, ◌<◌, ◌≡◌, ◌≢◌, refl, sym, ap, ◌∙◌, inl, inr, true, false, List, [],
  ◌∷◌, ◌++◌, length, length-append, ltb, if◌then◌else◌, arith, Bool-cases, subst,
}
use transcodex.Base.Int.{ℤ, pos, pos_part, ltb_ℤ}
use transcodex.Api.{Config}
use transcodex.Api.Limit.{
  Signal, more, eof, failed, Source, SizeLimitedReader, read_limited, Ending, complete, broken,
  over, unfinished, consume, after_read, probe, counted,
}

abbrev pub IsPrefix : List ℕ → List ℕ → Type 0
IsPrefix bytes xs = (rest : List ℕ) × (xs ≡ bytes ++ rest)

-- What a consumer may have been handed of `xs` where `left` bytes were left of the limit
abbrev pub Good : List ℕ → ℕ → List ℕ × Ending → Type 0
Good xs left (bytes, complete) = (bytes ≡ xs) × (length xs ≤ left)
Good xs left (bytes, broken) = IsPrefix bytes xs × (length bytes ≤ left)
Good xs left (bytes, over) = IsPrefix bytes xs × (length bytes ≡ left) × (left < length xs)
Good xs left (bytes, unfinished) = ⊥

++_assoc : (xs ys zs : List ℕ) → xs ++ (ys ++ zs) ≡ (xs ++ ys) ++ zs
++_assoc [] ys zs = refl
++_assoc (x ∷ xs) ys zs = ap (λ l. x ∷ l) (++_assoc xs ys zs)

++_nil : (xs : List ℕ) → xs ++ [] ≡ xs
++_nil [] = refl
++_nil (x ∷ xs) = ap (λ l. x ∷ l) (++_nil xs)

IsPrefix-append : (xs bytes ys : List ℕ) → IsPrefix bytes ys → IsPrefix (xs ++ bytes) (xs ++ ys)
IsPrefix-append xs bytes ys (rest, e) = (rest, ap (λ l. xs ++ l) e ∙ ++_assoc xs bytes rest)

append-Good :
    (xs ys : List ℕ) (left : ℕ) (out : List ℕ × Ending)
    → length xs ≤ left
    → Good ys (left - length xs) out
    → Good (xs ++ ys) left (xs ++ out.0, out.1)
append-Good xs ys left (bytes, complete) h (e, small) =
    (ap (λ l. xs ++ l) e, omega (arith, length-append xs ys))
append-Good xs ys left (bytes, broken) h (p, small) =
    (IsPrefix-append xs bytes ys p, omega (arith, length-append xs bytes))
append-Good xs ys left (bytes, over) h (p, all, large) = (
  IsPrefix-append xs bytes ys p,
  omega (arith, length-append xs bytes),
  omega (arith, length-append xs ys),
)
append-Good xs ys left (bytes, unfinished) h g = g

room_left : (limit : ℤ) (n : ℕ) → ltb_ℤ (pos n) limit ≡ true → 0 < pos_part limit - n
room_left limit n h = ground arith

no_room : (limit : ℤ) (n : ℕ) → ltb_ℤ (pos n) limit ≡ false → pos_part limit - n ≡ 0
no_room limit n h = ground arith

buffer :
    (left k : ℕ)
    → 0 < left
    → (0 < (if ltb left (suc k) then left else suc k))
      × ((if ltb left (suc k) then left else suc k) ≤ left)
buffer left k h = ground arith

module _ (s : Source) where
  -- What the laws say of one read of the source
  abbrev Answers : ℕ → List ℕ → List ℕ × Signal × s.State → Type 0
  Answers n xs (bytes, signal, t) =
      (xs ≡ bytes ++ s.content t)
      × (length bytes ≤ n)
      × (0 < n → signal ≡ more → 0 < length bytes)
      × (signal ≡ eof → s.content t ≡ [])

  read-Answers : (n : ℕ) (t : s.State) → Answers n (s.content t) (s.read n t)
  read-Answers n t = (s.read_content n t, s.read_bounded n t, s.read_progress n t, s.read_eof n t)

  probe-Good :
      (r : SizeLimitedReader s) (on : SizeLimitedReader s → List ℕ × Ending) (xs : List ℕ)
      (out : List ℕ × Signal × s.State)
      → Answers 1 xs out
      → Good xs 0 (after_read s (probe s r out) on)
  probe-Good r on xs ([], more, t) (e, short, progress, last) =
      absurd (omega (arith, progress (omega arith) refl))
  probe-Good r on xs ([], eof, t) (e, short, progress, last) =
      let none_left : xs ≡ [] = e ∙ last refl in (sym none_left, rw none_left (omega arith))
  probe-Good r on xs ([], failed, t) (e, short, progress, last) = ((xs, refl), omega arith)
  probe-Good r on xs (b ∷ bytes, signal, t) (e, short, progress, last) =
      ((xs, refl), refl, rw e (omega arith))

  counted-Good :
      (r : SizeLimitedReader s) (on : SizeLimitedReader s → List ℕ × Ending) (n fuel : ℕ)
      (xs : List ℕ) (out : List ℕ × Signal × s.State)
      → 0 < n
      → n ≤ pos_part r.limit - r.count
      → length xs < suc fuel
      → ((next : SizeLimitedReader s)
          → length (s.content next.reader) < fuel
          → Good (s.content next.reader) (pos_part next.limit - next.count) (on next))
      → Answers n xs out
      → Good xs (pos_part r.limit - r.count) (after_read s (counted s r out) on)
  counted-Good r on n fuel xs (bytes, more, t) some_room room size ih (e, short, progress, last) =
      subst (λ l. Good l (pos_part r.limit - r.count) (bytes ++ (on next).0, (on next).1)) (sym e)
        (append-Good bytes (s.content t) _ (on next) (omega arith) (
          subst (λ m. Good (s.content t) m (on next)) (omega arith)
            (ih next (
              omega
                (arith, ap length e, length-append bytes (s.content t), progress some_room refl)))))
    where
      next : SizeLimitedReader s
      next = record r { reader = t; count = r.count + length bytes }
  counted-Good r on n fuel xs (bytes, eof, t) some_room room size ih (e, short, progress, last) =
      let all : xs ≡ bytes = e ∙ ap (λ l. bytes ++ l) (last refl) ∙ ++_nil bytes in
      (sym all, rw all (omega arith))
  counted-Good r on n fuel xs (bytes, failed, t) some_room room size ih (e, short, progress, last) =
      ((s.content t, e), omega arith)

  consume-Good :
      (fuel : ℕ) (room : ℕ → ℕ) (k : ℕ) (r : SizeLimitedReader s)
      → length (s.content r.reader) < fuel
      → Good (s.content r.reader) (pos_part r.limit - r.count) (consume s fuel room k r)
  unfolding consume read_limited
  consume-Good zero room k r h = absurd (omega arith)
  consume-Good (suc fuel) room k r h = elim (Bool-cases (ltb_ℤ (pos r.count) r.limit)) [
    | inl below ↦
        let positive = room_left r.limit r.count below in
        let (some_room, fits) = buffer (pos_part r.limit - r.count) (room k) positive in
        rw below (
          counted-Good r (consume s fuel room (suc k)) _ fuel _ (s.read _ r.reader) some_room fits h
            (consume-Good fuel room (suc k)) (read-Answers _ r.reader))
    | inr reached ↦
        let none_left = no_room r.limit r.count reached in
        rw (reached, none_left) (probe-Good r _ _ (s.read 1 r.reader) (read-Answers 1 r.reader))
  ]

  abbrev pub fresh : Config → s.State → SizeLimitedReader s
  fresh c t = record { reader = t; limit = c.upload_size_limit; count = 0 }

  pub fresh-Good :
      (c : Config) (room : ℕ → ℕ) (t : s.State)
      → Good
          (s.content t)
          (pos_part c.upload_size_limit)
          (consume s (suc (length (s.content t))) room 0 (fresh c t))
  fresh-Good c room t =
      subst
        (λ left.
          Good (s.content t) left (consume s (suc (length (s.content t))) room 0 (fresh c t)))
        (omega arith) (consume-Good (suc (length (s.content t))) room 0 (fresh c t) (omega arith))

  Good-ended :
      (xs : List ℕ) (left : ℕ) (out : List ℕ × Ending)
      → Good xs left out
      → (out.1 ≢ unfinished) × IsPrefix out.0 xs × (length out.0 ≤ left)
  Good-ended xs left (bytes, complete) (e, small) =
      (λ p. absurd (cc), ([], sym (++_nil bytes ∙ e)), rw e small)
  Good-ended xs left (bytes, broken) (p, small) = (λ q. absurd (cc), p, small)
  Good-ended xs left (bytes, over) (p, all, large) = (λ q. absurd (cc), p, omega arith)
  Good-ended xs left (bytes, unfinished) g = absurd g

  -- The consumer of an upload always comes to an end: whatever the source, also one that fails, and
  -- whatever the sizes of the buffers, at most one read more than the source has bytes reports
  -- io.EOF or an error. What it has been handed by then is the beginning of the source's bytes, and
  -- never more of them than the limit.
  pub consume_ends :
      (c : Config) (room : ℕ → ℕ) (t : s.State)
      → let out = consume s (suc (length (s.content t))) room 0 (fresh c t) in
        (out.1 ≢ unfinished)
        × IsPrefix out.0 (s.content t)
        × (length out.0 ≤ pos_part c.upload_size_limit)
  consume_ends c room t =
      Good-ended (s.content t) (pos_part c.upload_size_limit)
        (consume s (suc (length (s.content t))) room 0 (fresh c t)) (fresh-Good c room t)

-- ===== src/Benchmark/Outputs.antt =====
-- Which outputs `completeOutputSet` of cmd/benchmark/main.go takes as complete.
use transcodex.Base.{
  ℕ, ◌+◌, ◌≡◌, refl, ◌∙◌, sym, ap, Bool, true, false, Option, some, List, [], ◌∷◌, arith, ◌==◌,
  if◌then◌else◌, length, length-map, ◌↔◌, ==_iff, filter, map, Bool-cases, inl, inr,
}
use transcodex.Base.Text.{same_text}
use transcodex.Db.Schema.{OutputType, same_type}
use transcodex.Worker.Media.{type_text}
use transcodex.Benchmark.{Want, want, mark, is_found, all_found, check_outputs, complete_output_set}

-- Output types as the texts of the map's keys
same_text-type_text : (a b : OutputType) → same_text (type_text a) (type_text b) ≡ same_type b a
same_text-type_text OutputType.video_360p OutputType.video_360p = refl
same_text-type_text OutputType.video_360p OutputType.video_720p = refl
same_text-type_text OutputType.video_360p OutputType.video_1080p = refl
same_text-type_text OutputType.video_360p OutputType.thumbnail = refl
same_text-type_text OutputType.video_720p OutputType.video_360p = refl
same_text-type_text OutputType.video_720p OutputType.video_720p = refl
same_text-type_text OutputType.video_720p OutputType.video_1080p = refl
same_text-type_text OutputType.video_720p OutputType.thumbnail = refl
same_text-type_text OutputType.video_1080p OutputType.video_360p = refl
same_text-type_text OutputType.video_1080p OutputType.video_720p = refl
same_text-type_text OutputType.video_1080p OutputType.video_1080p = refl
same_text-type_text OutputType.video_1080p OutputType.thumbnail = refl
same_text-type_text OutputType.thumbnail OutputType.video_360p = refl
same_text-type_text OutputType.thumbnail OutputType.video_720p = refl
same_text-type_text OutputType.thumbnail OutputType.video_1080p = refl
same_text-type_text OutputType.thumbnail OutputType.thumbnail = refl

same_type_eq : (a b : OutputType) → same_type a b ≡ true → a ≡ b
same_type_eq a b h = ground arith

-- The outputs of a type
abbrev pub of_type : OutputType → List OutputType → ℕ
of_type k ts = length (filter (λ t. same_type t k) ts)

abbrev once : Bool → ℕ
once true = 1
once false = 0

seen_first :
    (k : OutputType) (ts : List OutputType) (seen : OutputType → Bool)
    → of_type k (k ∷ ts) + once (seen k) ≡ 1
    → seen k ≡ false
seen_first OutputType.video_360p ts seen h = ground arith
seen_first OutputType.video_720p ts seen h = ground arith
seen_first OutputType.video_1080p ts seen h = ground arith
seen_first OutputType.thumbnail ts seen h = ground arith

found_type :
    (w : Want) (k : OutputType) (seen : Bool)
    → w (type_text k) ≡ some seen
    → 0 + once seen ≡ 1
    → is_found (w (type_text k)) ≡ true
found_type w k true e h = rw e refl
found_type w k false e h = absurd (omega (arith, h))

marked :
    (t k : OutputType) (w : Want) (seen : OutputType → Bool)
    → w (type_text k) ≡ some (seen k)
    → mark (type_text t) w (type_text k) ≡ some (if same_type t k then true else seen k)
marked t k w seen e =
    rw (same_text-type_text k t, e)
      (elim (Bool-cases (same_type t k)) [
        | inl same ↦ rw same refl
        | inr differs ↦ rw differs refl
      ])

still :
    (t k : OutputType) (ts : List OutputType) (seen : OutputType → Bool)
    → of_type k (t ∷ ts) + once (seen k) ≡ 1
    → of_type k ts + once (if same_type t k then true else seen k) ≡ 1
still t k ts seen h = elim (Bool-cases (same_type t k)) [
  | inl same ↦ let h' = rw same at h in rw same (omega (arith, h'))
  | inr differs ↦ let h' = rw differs at h in rw differs h'
]

check_outputs-balanced :
    (ts : List OutputType) (w : Want) (seen : OutputType → Bool)
    → ((k : OutputType) → w (type_text k) ≡ some (seen k))
    → ((k : OutputType) → of_type k ts + once (seen k) ≡ 1)
    → check_outputs (map type_text ts) w ≡ true
check_outputs-balanced [] w seen e h =
    let f : (k : OutputType) → is_found (w (type_text k)) ≡ true =
      λ k. found_type w k (seen k) (e k) (h k) in
    rw
      (
        f OutputType.video_360p,
        f OutputType.video_720p,
        f OutputType.video_1080p,
        f OutputType.thumbnail,
      )
      refl
check_outputs-balanced (t ∷ ts) w seen e h =
    let fresh : w (type_text t) ≡ some false = e t ∙ ap some (seen_first t ts seen (h t)) in
    rw fresh (
      check_outputs-balanced ts (mark (type_text t) w) (λ k. if same_type t k then true else seen k)
        (λ k. marked t k w seen (e k)) (λ k. still t k ts seen (h k)))

unmarked :
    (t k : OutputType) (ts : List OutputType) (seen : OutputType → Bool)
    → seen t ≡ false
    → of_type k ts + once (if same_type t k then true else seen k) ≡ 1
    → of_type k (t ∷ ts) + once (seen k) ≡ 1
unmarked t k ts seen fresh h = elim (Bool-cases (same_type t k)) [
  | inl same ↦
      let h' = rw same at h in
      let own : seen k ≡ false = ap seen (sym (same_type_eq t k same)) ∙ fresh in
      rw (same, own) (omega (arith, h'))
  | inr differs ↦ let h' = rw differs at h in rw differs h'
]

all_found_type :
    (w : Want) → all_found w ≡ true → (k : OutputType) → is_found (w (type_text k)) ≡ true
all_found_type w h OutputType.video_360p = ground arith
all_found_type w h OutputType.video_720p = ground arith
all_found_type w h OutputType.video_1080p = ground arith
all_found_type w h OutputType.thumbnail = ground arith

found_seen : (o : Option Bool) (seen : Bool) → o ≡ some seen → is_found o ≡ true → 0 + once seen ≡ 1
found_seen o true e h = refl
found_seen o false e h = absurd (cc (rw e at h))

balanced-check_outputs :
    (ts : List OutputType) (w : Want) (seen : OutputType → Bool)
    → ((k : OutputType) → w (type_text k) ≡ some (seen k))
    → check_outputs (map type_text ts) w ≡ true
    → (k : OutputType) → of_type k ts + once (seen k) ≡ 1
balanced-check_outputs [] w seen e h k = found_seen _ (seen k) (e k) (all_found_type w h k)
balanced-check_outputs (t ∷ ts) w seen e h k = elim (Bool-cases (seen t)) [
  | inl twice ↦ absurd (cc (rw (e t, twice) at h))
  | inr fresh ↦
      let h' = rw (e t, fresh) at h in
      unmarked t k ts seen fresh (
        balanced-check_outputs ts (mark (type_text t) w)
          (λ j. if same_type t j then true else seen j) (λ j. marked t j w seen (e j)) h' k)
]

length-of_type :
    (ts : List OutputType)
    → length ts
      ≡ of_type OutputType.video_360p ts
        + of_type OutputType.video_720p ts
        + of_type OutputType.video_1080p ts
        + of_type OutputType.thumbnail ts
length-of_type [] = refl
length-of_type (OutputType.video_360p ∷ ts) = omega (arith, length-of_type ts)
length-of_type (OutputType.video_720p ∷ ts) = omega (arith, length-of_type ts)
length-of_type (OutputType.video_1080p ∷ ts) = omega (arith, length-of_type ts)
length-of_type (OutputType.thumbnail ∷ ts) = omega (arith, length-of_type ts)

want_type : (k : OutputType) → want (type_text k) ≡ some false
want_type OutputType.video_360p = refl
want_type OutputType.video_720p = refl
want_type OutputType.video_1080p = refl
want_type OutputType.thumbnail = refl

-- The benchmark takes the outputs of a job as complete exactly if each of the four types is among
-- them once.
pub complete_output_set_iff :
    (ts : List OutputType)
    → (complete_output_set (map type_text ts) ≡ true) ↔ ((k : OutputType) → of_type k ts ≡ 1)
complete_output_set_iff ts = (
  λ h k.
      let checked : check_outputs (map type_text ts) want ≡ true =
        elim (Bool-cases (length (map type_text ts) == 4)) [
          | inl four ↦ rw four at h
          | inr other ↦ absurd (cc (rw other at h))
        ] in
      let n = balanced-check_outputs ts want (λ _. false) want_type checked k in omega (arith, n),
  λ h.
      let four : (length (map type_text ts) == 4) ≡ true = (==_iff _ 4).1 (
        omega (
          arith,
          length-map type_text ts,
          length-of_type ts,
          h OutputType.video_360p,
          h OutputType.video_720p,
          h OutputType.video_1080p,
          h OutputType.thumbnail,
        )) in
      rw four (check_outputs-balanced ts want (λ _. false) want_type (λ k. omega (arith, h k))),
)

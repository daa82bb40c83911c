-- ===== src/Tests/Summaries.antt =====
-- The summary of a benchmark of three jobs, by insertion sort.
use transcodex.Base.{
  ℕ, suc, ◌+◌, ◌≤◌, ◌<◌, ◌≡◌, refl, Bool, true, false, none, some, List, [], ◌∷◌, if◌then◌else◌,
  length, All, arith, Bool-cases, inl, inr,
}
use transcodex.Base.Int.{ℤ, pos}
use transcodex.Benchmark.{completed, timeout}
use transcodex.Benchmark.Summary.{
  JobReport, leb_ℤ, count, IsSorted, Numerics, summarize, collect, percentile,
}
use transcodex.Benchmark.Percentile.{IsPercentile}
use transcodex.Benchmark.Rank.{summarize-IsPercentile, summarize_counts}

insert : ℤ → List ℤ → List ℤ
insert v [] = v ∷ []
insert v (w ∷ ws) = let rest = insert v ws in if leb_ℤ v w then v ∷ w ∷ ws else w ∷ rest

sort : List ℤ → List ℤ
sort [] = []
sort (v ∷ vs) = insert v (sort vs)

length-insert : (v : ℤ) (ws : List ℤ) → length (insert v ws) ≡ suc (length ws)
unfolding insert
length-insert v [] = refl
length-insert v (w ∷ ws) = ground (arith, length-insert v ws)

length-sort : (vs : List ℤ) → length (sort vs) ≡ length vs
unfolding sort
length-sort [] = refl
length-sort (v ∷ vs) = omega (arith, length-insert v (sort vs), length-sort vs)

count-insert : (p : ℤ → Bool) (v : ℤ) (ws : List ℤ) → count p (insert v ws) ≡ count p (v ∷ ws)
unfolding insert
count-insert p v [] = refl
count-insert p v (w ∷ ws) = ground (arith, count-insert p v ws)

count-sort : (p : ℤ → Bool) (vs : List ℤ) → count p (sort vs) ≡ count p vs
unfolding sort
count-sort p [] = refl
count-sort p (v ∷ vs) = ground (arith, count-insert p v (sort vs), count-sort p vs)

All-insert :
    (u v : ℤ) (ws : List ℤ)
    → leb_ℤ u v ≡ true
    → All (λ w. leb_ℤ u w ≡ true) ws
    → All (λ w. leb_ℤ u w ≡ true) (insert v ws)
unfolding insert
All-insert u v [] e h = (e, tt)
All-insert u v (w ∷ ws) e (h, hs) = elim (Bool-cases (leb_ℤ v w)) [
  | inl before ↦ rw before (e, (h, hs))
  | inr after ↦ rw after (h, All-insert u v ws e hs)
]

leb_ℤ_trans : (u v w : ℤ) → leb_ℤ u v ≡ true → leb_ℤ v w ≡ true → leb_ℤ u w ≡ true
leb_ℤ_trans u v w e f = ground arith

All-trans :
    (v w : ℤ) (us : List ℤ)
    → leb_ℤ v w ≡ true
    → All (λ u. leb_ℤ w u ≡ true) us
    → All (λ u. leb_ℤ v u ≡ true) us
All-trans v w [] e h = tt
All-trans v w (u ∷ us) e (h, hs) = (leb_ℤ_trans v w u e h, All-trans v w us e hs)

leb_ℤ_total : (v w : ℤ) → leb_ℤ v w ≡ false → leb_ℤ w v ≡ true
leb_ℤ_total v w h = ground arith

insert-IsSorted : (v : ℤ) (ws : List ℤ) → IsSorted ws → IsSorted (insert v ws)
unfolding insert
insert-IsSorted v [] s = (tt, tt)
insert-IsSorted v (w ∷ ws) (first, s) = elim (Bool-cases (leb_ℤ v w)) [
  | inl before ↦ rw before ((before, All-trans v w ws before first), (first, s))
  | inr after ↦ rw after (All-insert w v ws (leb_ℤ_total v w after) first, insert-IsSorted v ws s)
]

sort-IsSorted : (vs : List ℤ) → IsSorted (sort vs)
unfolding sort
sort-IsSorted [] = tt
sort-IsSorted (v ∷ vs) = insert-IsSorted v (sort vs) (sort-IsSorted vs)

abbrev exact : Numerics
exact = record {
  sort = sort;
  sort-IsSorted = sort-IsSorted;
  count-sort = count-sort;
  length-sort = length-sort;
}

abbrev job : ℕ → JobReport
job ms = record {
  status = completed;
  timings =
      some
        (record { queue_wait_ms = none; processing_ms = some (pos 700); total_ms = some (pos ms) });
}

abbrev results : List JobReport
results = job 900 ∷ record { status = timeout; timings = none } ∷ job 800 ∷ []

summarize-IsPercentile_example :
    let s = summarize exact results 0 in
    (IsPercentile 50 [] s.queue_wait_p50_ms)
    × (IsPercentile 95 [] s.queue_wait_p95_ms)
    × (IsPercentile 50 (pos 700 ∷ pos 700 ∷ []) s.processing_p50_ms)
    × (IsPercentile 95 (pos 700 ∷ pos 700 ∷ []) s.processing_p95_ms)
    × (IsPercentile 50 (pos 900 ∷ pos 800 ∷ []) s.total_p50_ms)
    × (IsPercentile 95 (pos 900 ∷ pos 800 ∷ []) s.total_p95_ms)
summarize-IsPercentile_example = summarize-IsPercentile exact results 0

summarize_counts_example :
    let s = summarize exact results 0 in
    (s.completed ≡ 2)
    × (s.completed + s.failed ≡ 3)
    × (s.success_rate.0 ≤ s.success_rate.1)
    × (0 < s.success_rate.1)
    × (0 < s.throughput_per_min.1)
summarize_counts_example = summarize_counts exact results 0 (omega arith)

percentiles_run : (summarize exact results 0).total_p50_ms ≡ some (pos 900)
unfolding summarize collect percentile sort insert
percentiles_run = refl

-- ===== src/Benchmark/Rank.antt =====
-- What the numbers of a benchmark's summary say of its results.
use transcodex.Base.{
  ℕ, ◌+◌, ◌≤◌, ◌<◌, ◌≡◌, refl, sym, ◌∙◌, ap, Option, none, some, List, [], ◌∷◌, ◌++◌, length, arith,
}
use transcodex.Base.Int.{ℤ}
use transcodex.Benchmark.{JobResult, completed, dead, failed, timeout}
use transcodex.Benchmark.Summary.{
  Timing, JobReport, Collected, append_value, add_timing, add_result, collect, no_values, Numerics,
  index_of, percentile, summarize,
}
use transcodex.Benchmark.Percentile.{IsPercentile, percentile-IsPercentile}

-- The values that the completed jobs report, in the order of the results
abbrev pub present : Option ℤ → List ℤ
present none = []
present (some v) = v ∷ []

abbrev pub reported_by : (Timing → Option ℤ) → JobResult → Option Timing → List ℤ
reported_by field completed (some t) = present (field t)
reported_by field _ _ = []

abbrev pub reported : (Timing → Option ℤ) → List JobReport → List ℤ
reported field [] = []
reported field (o ∷ os) = reported_by field o.status o.timings ++ reported field os

abbrev pub is_completed : JobResult → ℕ
is_completed completed = 1
is_completed _ = 0

abbrev pub completions : List JobReport → ℕ
completions [] = 0
completions (o ∷ os) = is_completed o.status + completions os

++_nil : (xs : List ℤ) → xs ++ [] ≡ xs
++_nil [] = refl
++_nil (x ∷ xs) = ap (λ l. x ∷ l) (++_nil xs)

++_assoc : (xs ys zs : List ℤ) → (xs ++ ys) ++ zs ≡ xs ++ (ys ++ zs)
++_assoc [] ys zs = refl
++_assoc (x ∷ xs) ys zs = ap (λ l. x ∷ l) (++_assoc xs ys zs)

append_value-present :
    (values : List ℤ) (o : Option ℤ) → append_value values o ≡ values ++ present o
append_value-present values none = sym (++_nil values)
append_value-present values (some v) = refl

module _ (get : Collected → List ℤ) (field : Timing → Option ℤ)
    (same : (c : Collected) → get (add_timing none c) ≡ get c)
    (more : (t : Timing) (c : Collected)
      → get (add_timing (some t) c) ≡ get c ++ present (field t)) where
  get_added :
      (status : JobResult) (t : Option Timing) (c : Collected)
      → get (add_result (record { status = status; timings = t }) c)
        ≡ get c ++ reported_by field status t
  get_added completed none c = same c ∙ sym (++_nil (get c))
  get_added completed (some t) c = more t c
  get_added dead t c = sym (++_nil (get c))
  get_added failed t c = sym (++_nil (get c))
  get_added timeout t c = sym (++_nil (get c))

  get-collect :
      (os : List JobReport) (c : Collected) → get (collect os c) ≡ get c ++ reported field os
  unfolding collect
  get-collect [] c = sym (++_nil (get c))
  get-collect (o ∷ os) c =
      get-collect os (add_result o c)
      ∙ ap (λ l. l ++ reported field os) (get_added o.status o.timings c)
      ∙ ++_assoc (get c) (reported_by field o.status o.timings) (reported field os)

count_added :
    (status : JobResult) (t : Option Timing) (c : Collected)
    → (add_result (record { status = status; timings = t }) c).count ≡ is_completed status + c.count
count_added completed none c = omega arith
count_added completed (some t) c = omega arith
count_added dead t c = omega arith
count_added failed t c = omega arith
count_added timeout t c = omega arith

count-collect :
    (os : List JobReport) (c : Collected) → (collect os c).count ≡ completions os + c.count
unfolding collect
count-collect [] c = omega arith
count-collect (o ∷ os) c =
    omega (arith, count-collect os (add_result o c), count_added o.status o.timings c)

is_completed_bounded : (status : JobResult) → is_completed status ≤ 1
is_completed_bounded status = ground arith

completions_bounded : (os : List JobReport) → completions os ≤ length os
completions_bounded [] = omega arith
completions_bounded (o ∷ os) = omega (arith, completions_bounded os, is_completed_bounded o.status)

module _ (n : Numerics) (results : List JobReport) (nanoseconds : ℕ) where
  -- Each percentile of the summary is that of the values which the completed jobs report, and is left out
  -- exactly where they report none: its rank k is half, or 95 hundredths, of the last index, rounded to the
  -- nearest number; more than k of the values are less than or equal to it, and all but k are
  -- greater than or equal to it.
  pub summarize-IsPercentile :
      let s = summarize n results nanoseconds in
      (IsPercentile 50 (reported (λ t. t.queue_wait_ms) results) s.queue_wait_p50_ms)
      × (IsPercentile 95 (reported (λ t. t.queue_wait_ms) results) s.queue_wait_p95_ms)
      × (IsPercentile 50 (reported (λ t. t.processing_ms) results) s.processing_p50_ms)
      × (IsPercentile 95 (reported (λ t. t.processing_ms) results) s.processing_p95_ms)
      × (IsPercentile 50 (reported (λ t. t.total_ms) results) s.total_p50_ms)
      × (IsPercentile 95 (reported (λ t. t.total_ms) results) s.total_p95_ms)
  unfolding summarize
  summarize-IsPercentile = (
    at_rank 50 (λ k. omega arith) (λ c. c.queue_wait) (λ t. t.queue_wait_ms) queue_wait,
    at_rank 95 (λ k. omega arith) (λ c. c.queue_wait) (λ t. t.queue_wait_ms) queue_wait,
    at_rank 50 (λ k. omega arith) (λ c. c.processing) (λ t. t.processing_ms) processing,
    at_rank 95 (λ k. omega arith) (λ c. c.processing) (λ t. t.processing_ms) processing,
    at_rank 50 (λ k. omega arith) (λ c. c.total) (λ t. t.total_ms) total,
    at_rank 95 (λ k. omega arith) (λ c. c.total) (λ t. t.total_ms) total,
  )
    where
      at_rank :
          (hundredths : ℕ)
          → ((k : ℕ) → index_of hundredths k ≤ k)
          → (get : Collected → List ℤ) (field : Timing → Option ℤ)
          → get (collect results no_values) ≡ reported field results
          → IsPercentile hundredths
              (reported field results)
              (percentile n.sort hundredths (get (collect results no_values)))
      at_rank hundredths h get field e =
          rw e (percentile-IsPercentile n hundredths h (reported field results))

      queue_wait : (collect results no_values).queue_wait ≡ reported (λ t. t.queue_wait_ms) results
      queue_wait =
          get-collect (λ c. c.queue_wait) (λ t. t.queue_wait_ms) (λ c. refl)
            (λ t c. append_value-present c.queue_wait t.queue_wait_ms) results no_values

      processing : (collect results no_values).processing ≡ reported (λ t. t.processing_ms) results
      processing =
          get-collect (λ c. c.processing) (λ t. t.processing_ms) (λ c. refl)
            (λ t c. append_value-present c.processing t.processing_ms) results no_values

      total : (collect results no_values).total ≡ reported (λ t. t.total_ms) results
      total =
          get-collect (λ c. c.total) (λ t. t.total_ms) (λ c. refl)
            (λ t c. append_value-present c.total t.total_ms) results no_values

  -- The counts of the summary are those of the completed jobs and of all others, together every job, the
  -- success rate is at most one, and neither rate divides by zero where there is a result.
  pub summarize_counts :
      0 < length results
      → let s = summarize n results nanoseconds in
        (s.completed ≡ completions results)
        × (s.completed + s.failed ≡ length results)
        × (s.success_rate.0 ≤ s.success_rate.1)
        × (0 < s.success_rate.1)
        × (0 < s.throughput_per_min.1)
  unfolding summarize
  summarize_counts h =
      let all = count-collect results no_values in
      let some_of = completions_bounded results in
      (omega arith, omega arith, omega arith, h, ground arith)

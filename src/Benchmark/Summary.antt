-- ===== src/Benchmark/Summary.antt =====
-- `summarize` of cmd/benchmark/main.go, with its `appendValue` and `percentile`. sort.Slice is
-- a parameter; a ratio of floats is the pair of its terms.
use transcodex.Base.{
  ℕ, zero, suc, ◌+◌, ◌-◌, ◌*◌, ◌/◌, ◌≡◌, Bool, true, Option, none, some, List, [], ◌∷◌, ◌++◌, ◌==◌,
  not, if◌then◌else◌, length, filter, All,
}
use transcodex.Base.Int.{ℤ, ltb_ℤ}
use transcodex.Benchmark.{JobResult, completed}

-- The fields of `timing` that the summary reads
pub record Timing : Type 0 where
  pub queue_wait_ms : Option ℤ
  pub processing_ms : Option ℤ
  pub total_ms : Option ℤ

pub record JobReport : Type 0 where
  pub status : JobResult
  pub timings : Option Timing

-- The values that the loop collects, and its count
pub record Collected : Type 0 where
  pub queue_wait : List ℤ
  pub processing : List ℤ
  pub total : List ℤ
  pub count : ℕ

-- `appendValue`, onto the end
abbrev pub append_value : List ℤ → Option ℤ → List ℤ
append_value values none = values
append_value values (some v) = values ++ v ∷ []

abbrev pub add_timing : Option Timing → Collected → Collected
add_timing none c = record c { count = suc c.count }
add_timing (some t) c = record {
  queue_wait = append_value c.queue_wait t.queue_wait_ms;
  processing = append_value c.processing t.processing_ms;
  total = append_value c.total t.total_ms;
  count = suc c.count;
}

-- The body of the loop
abbrev pub add_result : JobReport → Collected → Collected
add_result o c = elim o.status [ completed ↦ add_timing o.timings c | _ ↦ c ]

unfoldable pub collect : List JobReport → Collected → Collected
collect [] c = c
collect (o ∷ os) c = collect os (add_result o c)

abbrev pub no_values : Collected
no_values = record { queue_wait = []; processing = []; total = []; count = 0 }

-- values[i], where none is a panic
abbrev pub get_elem? : List ℤ → ℕ → Option ℤ
get_elem? [] i = none
get_elem? (v ∷ vs) zero = some v
get_elem? (v ∷ vs) (suc i) = get_elem? vs i

abbrev pub leb_ℤ : ℤ → ℤ → Bool
leb_ℤ a b = not (ltb_ℤ b a)

-- The values that a test accepts, counted
abbrev pub count : (ℤ → Bool) → List ℤ → ℕ
count p values = length (filter p values)

abbrev pub IsSorted : List ℤ → Type 0
IsSorted [] = Unit {0}
IsSorted (v ∷ vs) = All (λ w. leb_ℤ v w ≡ true) vs × IsSorted vs

-- sort.Slice, which reorders the values
pub record Numerics : Type 0 where
  pub sort : List ℤ → List ℤ
  pub sort-IsSorted : (values : List ℤ) → IsSorted (sort values)
  pub count-sort : (p : ℤ → Bool) (values : List ℤ) → count p (sort values) ≡ count p values
  pub length-sort : (values : List ℤ) → length (sort values) ≡ length values

-- int(float64(n)*p + .5), with p as hundredths. For .50 and .95, the values of the source, and n
-- below 2^52 the floats give this number: a product that lies halfway between two integers is
-- rounded to exactly that, and any other lies at least 1/20 from it.
abbrev pub index_of : ℕ → ℕ → ℕ
index_of hundredths n = (n * hundredths + 50) / 100

-- `percentile`
unfoldable pub percentile : (List ℤ → List ℤ) → ℕ → List ℤ → Option ℤ
percentile sort hundredths [] = none
percentile sort hundredths (v ∷ vs) = get_elem? (sort (v ∷ vs)) (index_of hundredths (length vs))

-- `summary`
pub record Summary : Type 0 where
  pub completed : ℕ
  pub failed : ℕ
  pub success_rate : ℕ × ℕ
  pub throughput_per_min : ℕ × ℕ
  pub queue_wait_p50_ms : Option ℤ
  pub queue_wait_p95_ms : Option ℤ
  pub processing_p50_ms : Option ℤ
  pub processing_p95_ms : Option ℤ
  pub total_p50_ms : Option ℤ
  pub total_p95_ms : Option ℤ

-- `summarize`, with the nanoseconds between start and end; where there are none it counts a second.
unfoldable pub summarize : Numerics → List JobReport → ℕ → Summary
unfolding collect
summarize n results nanoseconds =
    let c = collect results no_values in
    record {
      completed = c.count;
      failed = length results - c.count;
      success_rate = (c.count, length results);
      throughput_per_min =
          (c.count * 60000000000, if nanoseconds == 0 then 1000000000 else nanoseconds);
      queue_wait_p50_ms = percentile n.sort 50 c.queue_wait;
      queue_wait_p95_ms = percentile n.sort 95 c.queue_wait;
      processing_p50_ms = percentile n.sort 50 c.processing;
      processing_p95_ms = percentile n.sort 95 c.processing;
      total_p50_ms = percentile n.sort 50 c.total;
      total_p95_ms = percentile n.sort 95 c.total;
    }

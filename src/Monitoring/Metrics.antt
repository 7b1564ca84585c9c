-- ===== src/Monitoring/Metrics.antt =====
-- The counters of `record_performance_metric` of server/proxy/server/monitoring_statistics.c.
use net_port.Base.{
  ℕ, ◌+◌, ◌*◌, ◌/◌, ◌≤◌, ◌<◌, ◌≡◌, sym, Bool, true, false, leb, arith, if◌then◌else◌, Bool-cases,
  inl, inr, Str,
}
use native.Mathlib.Nat.{mul-le-mul_left, mul-le-mul, le_of_mul-le-mul_left, mul-div-le}
use mathlib.Core.Path.{subst}
use net_port.Monitoring.{
  PerformanceMetrics, new_period, count_failure, count_time, count_request,
  record_performance_metric, u32, u64,
}

-- No more failures than requests, no failure with two causes, and the three times in order.
pub record IsConsistent (m : PerformanceMetrics) : Type 0 where
  pub few_errors : m.error_count ≤ m.request_count
  pub one_cause : m.auth_failures + m.timeout_count ≤ m.error_count
  pub times_below : m.total_processing_time_ms ≤ m.request_count * m.max_response_time_ms
  pub average_small : m.avg_response_time_ms ≤ m.max_response_time_ms
  pub max_small : m.max_response_time_ms < u32
  pub p95_below : m.p95_response_time_ms ≤ m.max_response_time_ms
  pub p99_below : m.p99_response_time_ms ≤ m.max_response_time_ms

pub new_period-IsConsistent : (now : ℕ) → IsConsistent (new_period now)
unfolding new_period
new_period-IsConsistent now = record {
  few_errors = omega arith;
  one_cause = omega arith;
  times_below = omega arith;
  average_small = omega arith;
  max_small = omega arith;
  p95_below = omega arith;
  p99_below = omega arith;
}

-- A request that fails adds one failure and at most one cause of it.
count_failure-counts :
    (operation : Str) (time : ℕ) (m : PerformanceMetrics)
    → m.error_count + 1 < u32
    → m.auth_failures + m.timeout_count ≤ m.error_count
    → ((count_failure operation time m).error_count ≡ m.error_count + 1)
      × ((count_failure operation time m).auth_failures
            + (count_failure operation time m).timeout_count
          ≤ m.error_count + 1)
      × ((count_failure operation time m).request_count ≡ m.request_count)
unfolding count_failure
count_failure-counts operation time m small one = ground arith

-- The three times of a request keep their order.
count_time-IsOrdered :
    (time : ℕ) (m : PerformanceMetrics)
    → m.p95_response_time_ms ≤ m.max_response_time_ms
    → m.p99_response_time_ms ≤ m.max_response_time_ms
    → ((count_time time m).p95_response_time_ms ≤ (count_time time m).max_response_time_ms)
      × ((count_time time m).p99_response_time_ms ≤ (count_time time m).max_response_time_ms)
      × (time ≤ (count_time time m).max_response_time_ms)
      × (m.max_response_time_ms ≤ (count_time time m).max_response_time_ms)
unfolding count_time
count_time-IsOrdered time m p95 p99 = ground arith

-- The sum of the times stays below the number of requests times the longest.
sum_below_step :
    (count total time old_max new_max : ℕ)
    → total ≤ count * old_max
    → time ≤ new_max
    → old_max ≤ new_max
    → total + time ≤ (count + 1) * new_max
sum_below_step count total time old_max new_max below this grows =
    omega (arith, mul-le-mul_left count grows)

sum_below_u64 : (count total top : ℕ) → total ≤ count * top → count < u32 → top < u32 → total < u64
sum_below_u64 count total top below few small = omega (
  arith,
  mul-le-mul {n₁ = count} {m₁ = top} {n₂ = 4294967295} {m₂ = 4294967295} (omega arith)
      (omega arith),
)

average_below : (count total top : ℕ) → total ≤ count * top → 0 < count → total / count ≤ top
average_below count total top below some_ =
    le_of_mul-le-mul_left {k = count} (omega (arith, mul-div-le total count)) some_

-- The metrics that a request is counted into.
current_metrics-IsConsistent :
    (now : ℕ) (m : PerformanceMetrics)
    → IsConsistent m
    → IsConsistent (if leb m.period_end now then new_period now else m)
current_metrics-IsConsistent now m ok = elim (Bool-cases (leb m.period_end now)) [
  | inl over ↦ rw over (new_period-IsConsistent now)
  | inr runs ↦ rw runs ok
]

-- The metrics after the counters and before the times: `n` requests were there before this one.
record IsCounted (n time : ℕ) (f : PerformanceMetrics) : Type 0 where
  request : f.request_count ≡ n + 1
  few_errors : f.error_count ≤ n + 1
  one_cause : f.auth_failures + f.timeout_count ≤ f.error_count
  times_below : f.total_processing_time_ms ≤ n * f.max_response_time_ms + time
  max_small : f.max_response_time_ms < u32
  p95_below : f.p95_response_time_ms ≤ f.max_response_time_ms
  p99_below : f.p99_response_time_ms ≤ f.max_response_time_ms

count_time-times_below :
    (n time : ℕ) (f : PerformanceMetrics)
    → IsCounted n time f
    → f.total_processing_time_ms ≤ f.request_count * (count_time time f).max_response_time_ms
count_time-times_below n time f ok =
    let ordered = count_time-IsOrdered time f ok.p95_below ok.p99_below in
    let top = (count_time time f).max_response_time_ms in
    let whole : n * f.max_response_time_ms + time ≤ (n + 1) * top =
      sum_below_step n (n * f.max_response_time_ms) time f.max_response_time_ms top (omega arith)
        ordered.2 ordered.3 in
    subst (λ k. f.total_processing_time_ms ≤ k * top) (sym ok.request)
      (omega (arith, whole, ok.times_below))

count_time-IsConsistent :
    (n time : ℕ) (f : PerformanceMetrics)
    → IsCounted n time f
    → n + 1 < u32
    → time < u32
    → IsConsistent (count_time time f) × (time ≤ (count_time time f).max_response_time_ms)
unfolding count_time
count_time-IsConsistent n time f ok few small =
    let ordered = count_time-IsOrdered time f ok.p95_below ok.p99_below in
    let below = count_time-times_below n time f ok in
    let top = (count_time time f).max_response_time_ms in
    let average : f.total_processing_time_ms / f.request_count ≤ top =
      average_below f.request_count f.total_processing_time_ms top below
        (omega (arith, ok.request)) in
    (
      record {
        few_errors = ground (arith, ok.few_errors, ok.request);
        one_cause = ok.one_cause;
        times_below = below;
        average_small = omega (arith, average);
        max_small = ground (arith, ok.max_small, small);
        p95_below = ordered.0;
        p99_below = ordered.1;
      },
      ordered.2,
    )

count_failure-IsCounted :
    (n time : ℕ) (operation : Str) (f : PerformanceMetrics)
    → IsCounted n time f
    → f.error_count ≤ n
    → n + 1 < u32
    → IsCounted n time (count_failure operation time f)
unfolding count_failure
count_failure-IsCounted n time operation f ok no_more few = record {
  request = ground (arith, ok.request);
  few_errors = ground arith;
  one_cause = ground (arith, ok.one_cause);
  times_below = ground (arith, ok.times_below);
  max_small = ground (arith, ok.max_small);
  p95_below = ground (arith, ok.p95_below);
  p99_below = ground (arith, ok.p99_below);
}

count_request-IsCounted :
    (time : ℕ) (m : PerformanceMetrics)
    → IsConsistent m
    → m.request_count + 1 < u32
    → IsCounted m.request_count time (count_request time m)
unfolding count_request
count_request-IsCounted time m ok few = record {
  request = omega (arith, few);
  few_errors = omega (arith, ok.few_errors);
  one_cause = ok.one_cause;
  times_below = omega (arith, ok.times_below);
  max_small = ok.max_small;
  p95_below = ok.p95_below;
  p99_below = ok.p99_below;
}

-- A request that succeeds or fails, in the period that has been chosen.
finish_request-IsConsistent :
    (operation : Str) (time : ℕ) (success : Bool) (m : PerformanceMetrics)
    → IsConsistent m
    → m.request_count + 1 < u32
    → time < u32
    → IsConsistent (
        count_time time (
          if success
          then count_request time m
          else count_failure operation time (count_request time m)))
      × (time
          ≤ (count_time time (
              if success
              then count_request time m
              else count_failure operation time (count_request time m))).max_response_time_ms)
unfolding count_request
finish_request-IsConsistent operation time true m ok few small =
    count_time-IsConsistent m.request_count time (count_request time m)
      (count_request-IsCounted time m ok few) few small
finish_request-IsConsistent operation time false m ok few small =
    count_time-IsConsistent m.request_count time
      (count_failure operation time (count_request time m))
      (count_failure-IsCounted m.request_count time operation (count_request time m)
        (count_request-IsCounted time m ok few) ok.few_errors few)
      few small

-- `record_performance_metric` keeps the metrics consistent while the 32-bit counters have not reached
-- their end: there are no more errors than requests and no error has two causes, the 64-bit sum of the
-- times does not wrap, and the average time, the 95 and the 99 per cent time are at most the longest.
-- The longest is at least the time of this request.
pub record_performance_metric-IsConsistent :
    (now : ℕ) (operation : Str) (time : ℕ) (success : Bool) (m : PerformanceMetrics)
    → IsConsistent m
    → m.request_count + 1 < u32
    → time < u32
    → IsConsistent (record_performance_metric now operation time success m)
      × (time ≤ (record_performance_metric now operation time success m).max_response_time_ms)
unfolding record_performance_metric new_period
record_performance_metric-IsConsistent now operation time success m ok few small =
    finish_request-IsConsistent operation time success
      (if leb m.period_end now then new_period now else m) (current_metrics-IsConsistent now m ok)
      (ground (arith, few)) small

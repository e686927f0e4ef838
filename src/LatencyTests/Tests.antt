-- ===== src/LatencyTests/Tests.antt =====
-- The theorems on ThreadPoolBenchmark/LatencyTests.h at a concrete clock and pool. Doubles are whole
-- numbers here, and each look at the clock finds it ten nanoseconds on.
use thread_pool_backtesting.Base.{
  ℕ, zero, suc, ◌+◌, ◌*◌, ◌<◌, ◌≡◌, refl, some, List, [], ◌∷◌, arith, length, get_elem?, weigh,
  ◌==◌, if◌then◌else◌,
}
use thread_pool_backtesting.Queue.{returns}
use thread_pool_backtesting.Workloads.{add_rounds}
use thread_pool_backtesting.Contention.{run_tasks}
use thread_pool_backtesting.Ranges.Orders.{ascending, ascending-IsOrder, is_task}
use thread_pool_backtesting.Harness.Doubles.{add_all}
use thread_pool_backtesting.Harness.Latency.{record_all, record_latency, get_avg}
use thread_pool_backtesting.Harness.Tests.{whole}
use thread_pool_backtesting.LatencyTests.{
  latency_short_compute, elapsed, enqueue_all, latency_task, test_latency,
}
use thread_pool_backtesting.LatencyTests.Means.{latency_is_mean}

abbrev tens : ℕ → ℕ
tens k = 10 * k

-- Of two tasks the second runs first.
abbrev backwards : ℕ → List ℕ
backwards zero = []
backwards (suc n) = n ∷ backwards n

-- Latencies of 30 and 10, of which the mean is 20.
latency_backwards : test_latency whole tens backwards latency_short_compute 2 ≡ some (returns 20)
unfolding test_latency run_tasks latency_task enqueue_all add_rounds record_all record_latency
    get_avg
latency_backwards = refl

latency_is_mean_example :
    (latencies : List ℕ) × (test_latency whole tens (ascending 0) latency_short_compute 2
      ≡ some (returns (if ◌==◌ 2 0 then 0 else whole.over (add_all whole 0 latencies) 2)))
    × (length latencies ≡ 2)
    × ((j i : ℕ)
        → get_elem? (ascending 0 2) j ≡ some i
        → get_elem? latencies i ≡ some (elapsed whole tens (tens (2 + j)) (tens i)))
latency_is_mean_example =
    latency_is_mean whole tens (ascending 0) latency_short_compute 2 ascending-IsOrder tt
      (omega arith)

two_in_order : 0 < weigh (is_task 0) (ascending 0 2)
unfolding ascending
two_in_order = omega arith

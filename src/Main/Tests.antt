-- ===== src/Main/Tests.antt =====
-- main of ThreadPoolBenchmark/main.cpp in a world that is a clock. Doubles are whole numbers here.
use thread_pool_backtesting.Base.{
  ℕ, suc, ◌*◌, ◌≡◌, [], ◌∷◌, ◌++◌, map, length, replicate, refl, List, none, some, arith, get_elem?,
  Perm, ◌<◌,
}
use thread_pool_backtesting.Harness.{Runner}
use thread_pool_backtesting.Harness.Tests.{whole}
use thread_pool_backtesting.LatencyTests.{LatencyTest}
use thread_pool_backtesting.Main.{MainPool, MainTest, main}
use thread_pool_backtesting.Main.Ran.{RanBy, by_main, main_counts}
use thread_pool_backtesting.Main.{main_pool}
use thread_pool_backtesting.Ranges.{sum_from}
use thread_pool_backtesting.Ranges.Orders.{ascending}
use thread_pool_backtesting.Contention.{
  test_atomic_increment, test_mutex_locking, test_false_sharing,
}
use thread_pool_backtesting.Contention.Counts.{of_slot}
use thread_pool_backtesting.Slots.{Spacing, place_of, value_of, test_slots}
use thread_pool_backtesting.Runners.Session.Order.{tasks_run}
use thread_pool_backtesting.Runners.Tests.{
  indexed, indexed_session, indexed_out, loops, loops-IsLoops,
}
use thread_pool_backtesting.Main.Calls.{timings, measurements, make_call, main_calls}
use thread_pool_backtesting.Harness.Calls.{make_all}

abbrev clock : ℕ → ℕ × ℕ
clock w = (w * 1000000, suc w)

abbrev run_in_order : MainPool → Runner ℕ
run_in_order pool [] w = w
run_in_order pool (task ∷ tasks) w = run_in_order pool tasks (task w)

abbrev count_in_tests : MainTest → ℕ → Runner ℕ → ℕ → ℕ
count_in_tests test n pool w = pool (replicate n (λ w. suc w)) w

abbrev count_in_latency : LatencyTest → ℕ → Runner ℕ → ℕ → ℕ × ℕ
count_in_latency test n pool w = (w, pool (replicate n (λ w. suc w)) w)

main_calls_example :
    ((main whole clock run_in_order count_in_tests count_in_latency 0).1
      ≡ make_all
          (map
            (make_call whole clock run_in_order count_in_tests count_in_latency)
            (timings ++ measurements))
          0)
    × (length (timings ++ measurements) ≡ 1200)
main_calls_example = main_calls whole clock run_in_order count_in_tests count_in_latency 0

-- A session of main_ThreadPool with one worker and two tasks.
indexed-RanBy : RanBy loops 2 main_pool (tasks_run indexed.pool)
indexed-RanBy = by_main {workers = 1} {p = indexed.pool} refl indexed_session indexed_out refl

main_counts_example :
    Perm (tasks_run indexed.pool) (ascending 0 2)
    × (order : ℕ → List ℕ) × (order 2 ≡ tasks_run indexed.pool)
    × (test_atomic_increment order 2 ≡ some 2)
    × (test_mutex_locking order 2 ≡ some 2)
    × ((slots : ℕ → ℕ) × (test_false_sharing order 2 ≡ some slots)
        × ((k : ℕ) → slots k ≡ sum_from (of_slot k) 0 2))
    × ((spacing : Spacing)
        → (slots : List ℕ) × (test_slots order spacing 2 none ≡ some slots)
          × ((i : ℕ) → i < 2 → get_elem? slots (place_of spacing i) ≡ some (value_of spacing i)))
main_counts_example =
    main_counts loops main_pool 2 (tasks_run indexed.pool) loops-IsLoops (omega arith) indexed-RanBy

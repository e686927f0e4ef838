-- ===== src/Main.antt =====
-- main of ThreadPoolBenchmark/main.cpp, as it is compiled: its pools, its suites with their numbers of tasks
-- (PerfLoadDrop is switched off), and what it runs and prints. What a test does on a runner to the world is
-- an argument, and so is each runner.
pub mod Printed
pub mod Calls
pub mod Ran
mod Tests
use Prim.Native.Char.{Char}
use Prim.Native.String.{String}
use thread_pool_backtesting.Base.{ℕ, Option, some, List, [], ◌∷◌, ◌++◌, map}
use thread_pool_backtesting.Ranges.{◌>>=◌}
use thread_pool_backtesting.Workloads.{
  Sweep, sweep_noop, sweep_short, sweep_medium, sweep_heavy, sweep_mixed,
}
use thread_pool_backtesting.Contention.{Waiting, yields, spins, backs_off}
use thread_pool_backtesting.Waves.{
  BackToBack, back_to_back_noop, back_to_back_short_compute, back_to_back_heavy_compute,
  back_to_back_mixed,
}
use thread_pool_backtesting.Slots.{Spacing, adjacent_slots, padded_slots, stride_slots}
use thread_pool_backtesting.LatencyTests.{
  LatencyTest, latency_noop, latency_short_compute, latency_mixed_spike,
}
use thread_pool_backtesting.Harness.Doubles.{Double}
use thread_pool_backtesting.Harness.{Runner, TestSpec, SuiteSpec, PoolSpec, run_all_pools_on_suites}
use thread_pool_backtesting.Harness.Summary.{
  chars, print_summary_table_task_normalized, print_summary_table_suite_normalized,
}
use thread_pool_backtesting.Harness.Latency.{LatencyTestSpec, LatencySuiteSpec, run_latency_suites}

-- The runners that `pools` names.
pub data MainPool : Type 0 where
  main_pool dp_pool bs_pool task_pool taskflow_pool moody_pool : MainPool
  ms_ppl_parallel_for_pool onetbb_parallel_for_pool : MainPool

-- The test functions that `suites` names.
pub data MainTest : Type 0 where
  grp : Sweep → MainTest
  seq : Sweep → MainTest
  atomic_increment mutex_locking false_sharing : MainTest
  contention : Waiting → MainTest
  oversub : (multiplier : ℕ) → MainTest
  back_to_back : BackToBack → MainTest
  false_sharing_shared_counter : MainTest
  false_sharing_slots : Spacing → MainTest

abbrev pub pool_table : List (String × MainPool)
pool_table =
    ("main_ThreadPool", main_pool)
    ∷ ("DP_ThreadPool", dp_pool)
    ∷ ("BS_ThreadPool", bs_pool)
    ∷ ("task_ThreadPool", task_pool)
    ∷ ("Taskflow_ThreadPool", taskflow_pool)
    ∷ ("moody_ConcurrentQueue_ThreadPool", moody_pool)
    ∷ ("MS_PPL_parallel_for_TaskGroup", ms_ppl_parallel_for_pool)
    ∷ ("oneTBB_parallel_for_TaskGroup", onetbb_parallel_for_pool)
    ∷ []

abbrev pub suite_table : List (String × List (String × MainTest × ℕ))
suite_table =
    (
      "GrpTaskSizeSweep",
      ("noop", grp sweep_noop, 100000)
          ∷ ("short", grp sweep_short, 100000)
          ∷ ("medium", grp sweep_medium, 5000)
          ∷ ("heavy", grp sweep_heavy, 100)
          ∷ ("mixed_heavy_short_alternating", grp sweep_mixed, 100)
          ∷ [],
    )
    ∷ (
      "SeqTaskSizeSweep",
      ("noop", seq sweep_noop, 100)
          ∷ ("short", seq sweep_short, 50)
          ∷ ("medium", seq sweep_medium, 25)
          ∷ ("heavy", seq sweep_heavy, 5)
          ∷ ("mixed_heavy_short_alternating", seq sweep_mixed, 5)
          ∷ [],
    )
    ∷ (
      "HighContention",
      ("atomic_increment", atomic_increment, 100000)
          ∷ ("mutex_locking", mutex_locking, 100000)
          ∷ ("false_sharing", false_sharing, 100000)
          ∷ ("contention_yield", contention yields, 100000)
          ∷ ("contention_spin", contention spins, 100000)
          ∷ ("contention_backoff", contention backs_off, 100000)
          ∷ [],
    )
    ∷ (
      "SaturateOverSub",
      ("oversub_10x", oversub 10, 0)
          ∷ ("oversub_50x", oversub 50, 0)
          ∷ ("oversub_100x", oversub 100, 0)
          ∷ [],
    )
    ∷ (
      "BackToBack",
      ("back_to_back_noop", back_to_back back_to_back_noop, 20000)
          ∷ ("back_to_back_short_compute", back_to_back back_to_back_short_compute, 20000)
          ∷ ("back_to_back_heavy_compute", back_to_back back_to_back_heavy_compute, 20000)
          ∷ ("back_to_back_mixed", back_to_back back_to_back_mixed, 20000)
          ∷ [],
    )
    ∷ (
      "FalseSharing",
      ("false_sharing_shared_counter", false_sharing_shared_counter, 100000)
          ∷ ("false_sharing_adjacent_slots", false_sharing_slots adjacent_slots, 100000)
          ∷ ("false_sharing_padded_slots", false_sharing_slots padded_slots, 100000)
          ∷ ("false_sharing_stride_slots", false_sharing_slots stride_slots, 100000)
          ∷ [],
    )
    ∷ []

abbrev pub latency_suite_table : List (String × List (String × LatencyTest × ℕ))
latency_suite_table =
    (
      "LatencyFocus",
      ("Test_latency_noop", latency_noop, 50000)
          ∷ ("Test_latency_short_compute", latency_short_compute, 50000)
          ∷ ("Test_latency_mixed_spike", latency_mixed_spike, 2000)
          ∷ [],
    )
    ∷ []

abbrev pub runs_per_suite : ℕ
runs_per_suite = 5

module _ {D W : Type 0} (d : Double D) (now : W → ℕ × W) (runner : MainPool → Runner W)
    (test_func : MainTest → ℕ → Runner W → W → W)
    (latency_func : LatencyTest → ℕ → Runner W → W → D × W) where
  abbrev pub pools : List (PoolSpec W)
  unfolding chars
  pools = map (λ (name, p). record { pool_name = chars name; pool = runner p }) pool_table

  abbrev test_of : String × MainTest × ℕ → TestSpec W
  unfolding chars
  test_of (name, test, n) = record {
    test_name = chars name;
    test_func = test_func test;
    num_tasks = n;
  }

  abbrev pub suites : List (SuiteSpec W)
  unfolding chars
  suites =
      map (λ (name, tests). record { suite_name = chars name; tests = map test_of tests })
        suite_table

  abbrev latency_test_of : String × LatencyTest × ℕ → LatencyTestSpec D W
  unfolding chars
  latency_test_of (name, test, n) = record {
    test_name = chars name;
    test_func = latency_func test;
    num_tasks = n;
  }

  abbrev pub latency_suites : List (LatencySuiteSpec D W)
  unfolding chars
  latency_suites =
      map (λ (name, tests). record { suite_name = chars name; tests = map latency_test_of tests })
        latency_suite_table

  -- The line that is printed before the suites run on a pool.
  abbrev pub running_on : (what : String) → PoolSpec W → List Char
  unfolding chars
  running_on what spec = chars what ++ (spec.pool_name ++ chars " ===")

  -- What it prints, line by line, without the times at the head of each message, and the world that it
  -- leaves. The latency results are not printed.
  unfoldable pub main : W → Option (List (List Char)) × W
  unfolding chars
  main w =
      let (results, w1) = run_all_pools_on_suites d now suites pools runs_per_suite w in
      let (latency_results, w2) = run_latency_suites d latency_suites pools runs_per_suite w1 in
      (
        do
          by_suite ← print_summary_table_suite_normalized d suites results
          by_task ← print_summary_table_task_normalized d suites results
          some (
              chars "====RUN MAJOR SUITES EXCEPT LATENCY===="
                ∷ map (running_on "=== Running suites on ") pools
              ++ by_suite
              ++ by_task
              ++ chars "====RUN LATENCY SUITE===="
                ∷ map (running_on "=== Running tests on ") pools),
        w2,
      )

-- ===== src/Main/Calls.antt =====
-- What main of ThreadPoolBenchmark/main.cpp calls, in its order.
use Prim.Native.String.{String}
use thread_pool_backtesting.Base.{ℕ, ◌≡◌, refl, ap, ◌∙◌, sym, List, ◌++◌, map, length}
use thread_pool_backtesting.Harness.Doubles.{Double}
use thread_pool_backtesting.Harness.{Runner, timed, run_all_pools_on_suites}
use thread_pool_backtesting.Harness.Calls.{
  for_each, repeat, make_all, make_all-append, timed_calls, latency_calls, run_all_pools-calls,
  run_latency-calls,
}
use thread_pool_backtesting.LatencyTests.{LatencyTest}
use thread_pool_backtesting.Main.{
  MainPool, MainTest, pools, suites, latency_suites, pool_table, suite_table, latency_suite_table,
  runs_per_suite, main,
}

-- A call of a test with a runner and a number of tasks: between two readings of the clock, or not.
pub data MainCall : Type 0 where
  times : MainPool → MainTest → ℕ → MainCall
  measures : MainPool → LatencyTest → ℕ → MainCall

-- For each pool, for each suite, five times, each test.
abbrev pub timings : List MainCall
timings =
    for_each
      (λ ((name, p) : String × MainPool).
        for_each
          (λ ((suite, tests) : String × List (String × MainTest × ℕ)).
            repeat 5 (map (λ (test, t, n). times p t n) tests))
          suite_table)
      pool_table

abbrev pub measurements : List MainCall
measurements =
    for_each
      (λ ((name, p) : String × MainPool).
        for_each
          (λ ((suite, tests) : String × List (String × LatencyTest × ℕ)).
            repeat 5 (map (λ (test, t, n). measures p t n) tests))
          latency_suite_table)
      pool_table

module _ {D W : Type 0} (d : Double D) (now : W → ℕ × W) (runner : MainPool → Runner W)
    (test_func : MainTest → ℕ → Runner W → W → W)
    (latency_func : LatencyTest → ℕ → Runner W → W → D × W) where
  abbrev pub make_call : MainCall → W → W
  make_call (times p test n) w = (now (test_func test n (runner p) (now w).1)).1
  make_call (measures p test n) w = (latency_func test n (runner p) w).1

  all-calls :
      timed_calls d now
          (suites d now runner test_func latency_func)
          (pools d now runner test_func latency_func)
          runs_per_suite
        ++ latency_calls d
            (latency_suites d now runner test_func latency_func)
            (pools d now runner test_func latency_func)
            runs_per_suite
      ≡ map make_call (timings ++ measurements)
  unfolding timed pools suites latency_suites
  all-calls = refl

  -- All that main does to the world, apart from what it prints, is to call with each of its eight
  -- runners, in order, each of the 27 tests of its suites, each suite five times in a row and each
  -- call between two readings of the clock; and then with each runner, five times, the three
  -- latency tests: 1200 calls.
  pub main_calls :
      (w : W)
      → ((main d now runner test_func latency_func w).1
          ≡ make_all (map make_call (timings ++ measurements)) w)
        × (length (timings ++ measurements) ≡ 1200)
  unfolding main
  main_calls w =
      let specs = pools d now runner test_func latency_func in
      let timed_specs = suites d now runner test_func latency_func in
      let measured_specs = latency_suites d now runner test_func latency_func in
      let w1 = (run_all_pools_on_suites d now timed_specs specs runs_per_suite w).1 in
      (
        run_latency-calls d measured_specs specs runs_per_suite w1
            ∙ ap (make_all (latency_calls d measured_specs specs runs_per_suite))
                (run_all_pools-calls d now timed_specs specs runs_per_suite w)
            ∙ sym (
                make_all-append (timed_calls d now timed_specs specs runs_per_suite)
                  (latency_calls d measured_specs specs runs_per_suite) w)
            ∙ ap (λ calls. make_all calls w) all-calls,
        refl,
      )

-- ===== src/Main/Printed.antt =====
-- What main of ThreadPoolBenchmark/main.cpp prints.
use Prim.Native.Char.{Char}
use thread_pool_backtesting.Base.{ℕ, ◌≡◌, refl, some, List, ◌∷◌, ◌++◌, map}
use thread_pool_backtesting.Harness.Doubles.{Double}
use thread_pool_backtesting.Harness.{Runner}
use thread_pool_backtesting.Harness.Summary.{chars}
use thread_pool_backtesting.Harness.Summary.Table.{IsAligned, tables_align}
use thread_pool_backtesting.LatencyTests.{LatencyTest}
use thread_pool_backtesting.Main.{
  MainPool, MainTest, pools, suites, runs_per_suite, running_on, main,
}

module _ {D W : Type 0} (d : Double D) (now : W → ℕ × W) (runner : MainPool → Runner W)
    (test_func : MainTest → ℕ → Runner W → W → W)
    (latency_func : LatencyTest → ℕ → Runner W → W → D × W) where
  -- Whatever the tests and the runners do to the world and whatever the clock says, main finds each index in
  -- range and prints two tables, each with a line for each of its eight pools, in which header and lines
  -- all have one width, behind a heading and a line for each pool; then it prints such lines again.
  main_prints :
      (w : W)
      → (by_suite : List (List Char)) × (by_task : List (List Char)) × ((main d now runner test_func
            latency_func w).0
          ≡ some (
              chars "====RUN MAJOR SUITES EXCEPT LATENCY===="
                ∷ map
                    (running_on d now runner test_func latency_func "=== Running suites on ")
                    (pools d now runner test_func latency_func)
              ++ by_suite
              ++ by_task
              ++ chars "====RUN LATENCY SUITE===="
                ∷ map
                    (running_on d now runner test_func latency_func "=== Running tests on ")
                    (pools d now runner test_func latency_func)))
        × IsAligned d (suites d now runner test_func latency_func) 8 by_suite
        × IsAligned d (suites d now runner test_func latency_func) 8 by_task
  unfolding main chars
  main_prints w =
      let ((by_task, e, task_aligned), (by_suite, f, suite_aligned)) =
        tables_align d (suites d now runner test_func latency_func) now
          (pools d now runner test_func latency_func) runs_per_suite w in
      (by_suite, by_task, rw (f, e) refl, suite_aligned, task_aligned)

-- ===== src/Harness.antt =====
-- ThreadPoolBenchmark/Helpers.h: the harness that runs each suite on each pool and times it.
-- The world that tests act on is `W`, with `now` for the steady clock, in nanoseconds; doubles are
-- a type `D` with the operations that the harness uses.
pub mod Doubles
pub mod Totals
pub mod Results
pub mod Summary
pub mod Latency
pub mod Calls
pub mod Tests
use Prim.Native.Char.{Char}
use thread_pool_backtesting.Base.{
  ℕ, zero, suc, ◌+◌, ◌-◌, ◌/◌, List, [], ◌∷◌, length, get_or, set, replicate, map,
}
use thread_pool_backtesting.Harness.Doubles.{Double}

-- A `Task`, and what takes a vector of them.
abbrev pub Task : Type 0 → Type 0
Task W = W → W

abbrev pub Runner : Type 0 → Type 0
Runner W = List (Task W) → W → W

pub record TestSpec (W : Type 0) : Type 0 where
  pub test_name : List Char
  pub test_func : ℕ → Runner W → W → W
  pub num_tasks : ℕ

pub record SuiteSpec (W : Type 0) : Type 0 where
  pub suite_name : List Char
  pub tests : List (TestSpec W)

pub record PoolSpec (W : Type 0) : Type 0 where
  pub pool_name : List Char
  pub pool : Runner W

pub record PoolResult (D : Type 0) : Type 0 where
  pub pool_name : List Char
  pub per_test_avg_ms : List (List D)
  pub suite_averages : List D
  pub overall_average : D

module _ {D W : Type 0} (d : Double D) (now : W → ℕ × W) where
  -- `duration_cast<microseconds>(stop - start).count() / 1000.0`
  abbrev pub millis : (start stop : ℕ) → D
  millis start stop = d.over (d.of_nat ((stop - start) / 1000)) (d.of_nat 1000)

  -- One timed call of a test.
  unfoldable pub timed : Runner W → TestSpec W → W → D × W
  timed pool test w =
      let (start, w1) = now w in
      let (stop, w2) = now (test.test_func test.num_tasks pool w1) in (millis start stop, w2)

  -- `runSuiteOnPool`, which measures each test and drops what it measured.
  unfoldable pub run_suite_on_pool : Runner W → List (TestSpec W) → W → W
  run_suite_on_pool pool [] w = w
  run_suite_on_pool pool (test ∷ tests) w =
      let (_, w') = timed pool test w in run_suite_on_pool pool tests w'

  -- The loop of `runSuiteMultipleTimes`.
  unfoldable pub suite_times : Runner W → List (TestSpec W) → (runs : ℕ) → D → W → D × W
  suite_times pool tests zero total w = (total, w)
  suite_times pool tests (suc runs) total w =
      let (start, w1) = now w in
      let (stop, w2) = now (run_suite_on_pool pool tests w1) in
      suite_times pool tests runs (d.plus total (millis start stop)) w2

  unfoldable pub run_suite_multiple_times : SuiteSpec W → Runner W → (runs : ℕ) → W → D × W
  run_suite_multiple_times suite pool runs w =
      let (total, w') = suite_times pool suite.tests runs (d.of_nat 0) w in
      (d.over total (d.of_nat runs), w')

  -- The inner loop of `runAllPoolsOnSuites`, from test `t` on: `perTestAvgMs[s][t] += durMs`.
  unfoldable pub run_tests : Runner W → (t : ℕ) → List (TestSpec W) → List D → W → List D × W
  run_tests pool t [] row w = (row, w)
  run_tests pool t (test ∷ tests) row w =
      let (dur_ms, w') = timed pool test w in
      run_tests pool (t + 1) tests (set row t (d.plus (get_or row t (d.of_nat 0)) dur_ms)) w'

  -- `runsPerSuite` passes over a suite.
  unfoldable pub run_passes : Runner W → List (TestSpec W) → (runs : ℕ) → List D → W → List D × W
  run_passes pool tests zero row w = (row, w)
  run_passes pool tests (suc runs) row w =
      let (row', w') = run_tests pool 0 tests row w in run_passes pool tests runs row' w'

  -- `perTestAvgMs[s][t] /= runsPerSuite; suiteSum += perTestAvgMs[s][t]`
  unfoldable pub convert : (runs : ℕ) → List D → D → List D × D
  convert runs [] suite_sum = ([], suite_sum)
  convert runs (total ∷ row) suite_sum =
      let average = d.over total (d.of_nat runs) in
      let (rest, all) = convert runs row (d.plus suite_sum average) in (average ∷ rest, all)

  -- The rows, the suites' averages and `totalAvgMs`, over the suites that are left.
  unfoldable pub run_suites :
      Runner W → List (SuiteSpec W) → (runs : ℕ) → D → W → (List (List D) × List D × D) × W
  run_suites pool [] runs total_avg_ms w = (([], [], total_avg_ms), w)
  run_suites pool (suite ∷ suites) runs total_avg_ms w =
      let n_tests = length suite.tests in
      let (row, w1) = run_passes pool suite.tests runs (replicate n_tests (d.of_nat 0)) w in
      let (averages, suite_sum) = convert runs row (d.of_nat 0) in
      let suite_average = d.over suite_sum (d.of_nat n_tests) in
      let ((rows, rest, all), w2) =
        run_suites pool suites runs (d.plus total_avg_ms suite_average) w1 in
      ((averages ∷ rows, suite_average ∷ rest, all), w2)

  unfoldable pub run_pool :
      PoolSpec W → List (SuiteSpec W) → (runs_per_suite : ℕ) → W → PoolResult D × W
  run_pool spec suites runs w =
      let ((rows, averages, total), w') = run_suites spec.pool suites runs (d.of_nat 0) w in
      (
        record {
          pool_name = spec.pool_name;
          per_test_avg_ms = rows;
          suite_averages = averages;
          overall_average = d.over total (d.of_nat (length suites));
        },
        w',
      )

  unfoldable pub run_all_pools_on_suites :
      List (SuiteSpec W) → List (PoolSpec W) → (runs_per_suite : ℕ) → W → List (PoolResult D) × W
  run_all_pools_on_suites suites [] runs w = ([], w)
  run_all_pools_on_suites suites (spec ∷ pools) runs w =
      let (result, w1) = run_pool spec suites runs w in
      let (results, w2) = run_all_pools_on_suites suites pools runs w1 in (result ∷ results, w2)

-- ===== src/Harness/Latency.antt =====
-- ThreadPoolBenchmark/Helpers.h: LatencyStats, runLatencySuites and printLatencySummary.
pub mod Stats
use Prim.Native.Char.{Char}
use thread_pool_backtesting.Base.{
  ℕ, zero, suc, ◌+◌, ◌*◌, ◌%◌, ◌≡◌, refl, ◌∙◌, ap, Bool, true, false, Bool-cases, inl, inr, List,
  [], ◌∷◌, ◌++◌, map, arith, length, ◌==◌, if◌then◌else◌, size_mod,
}
use thread_pool_backtesting.Harness.Doubles.{Double, IsOrdered, min_double, max_double, add_all}
use thread_pool_backtesting.Harness.{Runner, PoolSpec, PoolResult}
use thread_pool_backtesting.Harness.Summary.{chars, pad_left, pad_right}

pub record LatencyTestSpec (D W : Type 0) : Type 0 where
  pub test_name : List Char
  pub test_func : ℕ → Runner W → W → D × W
  pub num_tasks : ℕ

pub record LatencySuiteSpec (D W : Type 0) : Type 0 where
  pub suite_name : List Char
  pub tests : List (LatencyTestSpec D W)

pub record LatencyStats (D : Type 0) : Type 0 where
  pub min_ns : D
  pub max_ns : D
  pub sum_ns : D
  pub sum_sq_ns : D
  pub count : ℕ

module _ {D : Type 0} (d : Double D) where
  abbrev pub no_stats : LatencyStats D
  no_stats = record {
    min_ns = d.max_value;
    max_ns = d.of_nat 0;
    sum_ns = d.of_nat 0;
    sum_sq_ns = d.of_nat 0;
    count = 0;
  }

  unfoldable pub record_latency : LatencyStats D → D → LatencyStats D
  record_latency s latency_ns = record {
    min_ns = min_double d s.min_ns latency_ns;
    max_ns = max_double d s.max_ns latency_ns;
    sum_ns = d.plus s.sum_ns latency_ns;
    sum_sq_ns = d.plus s.sum_sq_ns (d.times latency_ns latency_ns);
    count = (s.count + 1) % size_mod;
  }

  unfoldable pub get_avg : LatencyStats D → D
  get_avg s = if s.count == 0 then d.of_nat 0 else d.over s.sum_ns (d.of_nat s.count)

  unfoldable pub get_stddev : LatencyStats D → D
  unfolding get_avg
  get_stddev s =
      let avg = get_avg s in
      let variance = d.minus (d.over s.sum_sq_ns (d.of_nat s.count)) (d.times avg avg) in
      if s.count == 0 then d.of_nat 0 else d.sqrt (max_double d (d.of_nat 0) variance)

  -- `for (const auto& t : timings) stats.record(t.latencyNs)`
  unfoldable pub record_all : LatencyStats D → List D → LatencyStats D
  record_all s [] = s
  record_all s (x ∷ xs) = record_all (record_latency s x) xs

  module _ {W : Type 0} where
    -- One pass over a suite's tests, added to `suiteTotalNs`.
    unfoldable pub latency_pass : Runner W → List (LatencyTestSpec D W) → D → W → D × W
    latency_pass pool [] total w = (total, w)
    latency_pass pool (test ∷ tests) total w =
        let (ns, w') = test.test_func test.num_tasks pool w in
        latency_pass pool tests (d.plus total ns) w'

    unfoldable pub latency_passes :
        Runner W → List (LatencyTestSpec D W) → (runs : ℕ) → D → W → D × W
    latency_passes pool tests zero total w = (total, w)
    latency_passes pool tests (suc runs) total w =
        let (total', w') = latency_pass pool tests total w in
        latency_passes pool tests runs total' w'

    -- The averages of the suites that are left, in ms, and `totalPoolAvgNs`.
    unfoldable pub latency_suites :
        Runner W → List (LatencySuiteSpec D W) → (runs : ℕ) → D → W → (List D × D) × W
    latency_suites pool [] runs total w = (([], total), w)
    latency_suites pool (suite ∷ suites) runs total w =
        let (ns, w1) = latency_passes pool suite.tests runs (d.of_nat 0) w in
        let average = d.over ns (d.of_nat ((runs * length suite.tests) % size_mod)) in
        let ((rest, all), w2) = latency_suites pool suites runs (d.plus total average) w1 in
        ((d.over average (d.of_nat 1000000) ∷ rest, all), w2)

    unfoldable pub latency_pool :
        PoolSpec W → List (LatencySuiteSpec D W) → (runs : ℕ) → W → PoolResult D × W
    latency_pool spec suites runs w =
        let ((averages, total), w') = latency_suites spec.pool suites runs (d.of_nat 0) w in
        (
          record {
            pool_name = spec.pool_name;
            per_test_avg_ms = [];
            suite_averages = averages;
            overall_average = d.over (d.over total (d.of_nat (length suites))) (d.of_nat 1000000);
          },
          w',
        )

    unfoldable pub run_latency_suites :
        List (LatencySuiteSpec D W) → List (PoolSpec W) → (runs : ℕ) → W → List (PoolResult D) × W
    run_latency_suites suites [] runs w = ([], w)
    run_latency_suites suites (spec ∷ pools) runs w =
        let (result, w1) = latency_pool spec suites runs w in
        let (results, w2) = run_latency_suites suites pools runs w1 in (result ∷ results, w2)

  -- `std::sort` by ascending overall average; results with equal averages keep their order here.
  unfoldable pub insert_result : PoolResult D → List (PoolResult D) → List (PoolResult D)
  insert_result r [] = r ∷ []
  insert_result r (s ∷ results) =
      let later = insert_result r results in
      if d.less s.overall_average r.overall_average then s ∷ later else r ∷ s ∷ results

  unfoldable pub sort_results : List (PoolResult D) → List (PoolResult D)
  sort_results [] = []
  sort_results (r ∷ results) = insert_result r (sort_results results)

  abbrev ms_cell : D → List Char
  unfolding chars
  ms_cell x = pad_left 25 (d.fixed 3 x ++ chars " ms")

  abbrev join : List (List Char) → List Char
  join [] = []
  join (text ∷ texts) = text ++ join texts

  unfoldable pub latency_row : PoolResult D → List Char
  unfolding chars
  latency_row r =
      pad_right 40 (r.pool_name ++ chars ":")
      ++ (ms_cell r.overall_average ++ join (map ms_cell r.suite_averages))

  -- The lines of `printLatencySummary`: columns of fixed widths.
  unfoldable pub print_latency_summary :
      {W : Type 0} → List (LatencySuiteSpec D W) → List (PoolResult D) → List (List Char)
  unfolding chars
  print_latency_summary suites results =
      []
        ∷ chars "================== Latency Summary =================="
        ∷ (pad_right 40 (chars " ")
            ++ (pad_left 25 (chars "total avg ")
                ++ join (map (λ s. pad_left 25 s.suite_name) suites)))
        ∷ map latency_row (sort_results results)
      ++ chars "=====================================================" ∷ []

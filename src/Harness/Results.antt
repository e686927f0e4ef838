-- ===== src/Harness/Results.antt =====
-- The results of runAllPoolsOnSuites (ThreadPoolBenchmark/Helpers.h): one for each pool, with a row for
-- each suite, and averages that fit the rows.
use Prim.Native.Char.{Char}
use thread_pool_backtesting.Base.{ℕ, suc, ◌≡◌, refl, ap, ◌∙◌, List, [], ◌∷◌, length, replicate}
use thread_pool_backtesting.Harness.Doubles.{Double, add_all}
use thread_pool_backtesting.Harness.{
  Runner, SuiteSpec, PoolSpec, PoolResult, run_passes, convert, run_suites, run_pool,
  run_all_pools_on_suites,
}
use thread_pool_backtesting.Harness.Totals.{passes_add_up}

module _ {D W : Type 0} (d : Double D) where
  -- A row for each suite with an entry for each of its tests, and the mean of each row.
  abbrev pub Fits : List (SuiteSpec W) → List (List D) → List D → Type 0
  Fits [] [] [] = Unit {0}
  Fits (suite ∷ suites) (row ∷ rows) (average ∷ averages) =
      (length row ≡ length suite.tests)
      × (average ≡ d.over (add_all d (d.of_nat 0) row) (d.of_nat (length suite.tests)))
      × Fits suites rows averages
  Fits _ _ _ = ⊥

  pub record IsResult (suites : List (SuiteSpec W)) (name : List Char) (r : PoolResult D)
      : Type 0 where
    pub named : r.pool_name ≡ name
    pub fits : Fits suites r.per_test_avg_ms r.suite_averages
    pub overall :
        r.overall_average
        ≡ d.over (add_all d (d.of_nat 0) r.suite_averages) (d.of_nat (length suites))

  -- One result for each pool, in the order of the pools.
  abbrev pub AreResults : List (SuiteSpec W) → List (PoolSpec W) → List (PoolResult D) → Type 0
  AreResults suites [] [] = Unit {0}
  AreResults suites (pool ∷ pools) (r ∷ results) =
      IsResult suites pool.pool_name r × AreResults suites pools results
  AreResults suites _ _ = ⊥

module _ {D W : Type 0} (d : Double D) (now : W → ℕ × W) where
  convert-length :
      (runs : ℕ) (row : List D) (sum : D) → length (convert d now runs row sum).0 ≡ length row
  unfolding convert
  convert-length runs [] sum = refl
  convert-length runs (x ∷ row) sum =
      ap suc (convert-length runs row (d.plus sum (d.over x (d.of_nat runs))))

  convert-sum :
      (runs : ℕ) (row : List D) (sum : D)
      → (convert d now runs row sum).1 ≡ add_all d sum (convert d now runs row sum).0
  unfolding convert
  convert-sum runs [] sum = refl
  convert-sum runs (x ∷ row) sum = convert-sum runs row (d.plus sum (d.over x (d.of_nat runs)))

  run_suites-Fits :
      (pool : Runner W) (suites : List (SuiteSpec W)) (runs : ℕ) (total : D) (w : W)
      → let ((rows, averages, all), w') = run_suites d now pool suites runs total w in
        Fits d suites rows averages × (all ≡ add_all d total averages)
  unfolding run_suites
  run_suites-Fits pool [] runs total w = (tt, refl)
  run_suites-Fits pool (suite ∷ suites) runs total w =
      let n = length suite.tests in
      let (row, w1) = run_passes d now pool suite.tests runs (replicate n (d.of_nat 0)) w in
      let (averages, suite_sum) = convert d now runs row (d.of_nat 0) in
      let average = d.over suite_sum (d.of_nat n) in
      let (fits, all) = run_suites-Fits pool suites runs (d.plus total average) w1 in
      (
        (
          convert-length runs row (d.of_nat 0) ∙ (passes_add_up d now pool suite.tests runs w).0,
          ap (λ s. d.over s (d.of_nat n)) (convert-sum runs row (d.of_nat 0)),
          fits,
        ),
        all,
      )

  -- However long the calls take: there is one result for each pool, in the order of the pools and
  -- under the pool's name; it has a row for each suite and an entry for each test; a suite's
  -- average is the sum of its row over the number of its tests, and the overall average the sum of
  -- those over the number of suites.
  pub results_fit :
      (suites : List (SuiteSpec W)) (pools : List (PoolSpec W)) (runs : ℕ) (w : W)
      → AreResults d suites pools (run_all_pools_on_suites d now suites pools runs w).0
  unfolding run_all_pools_on_suites run_pool
  results_fit suites [] runs w = tt
  results_fit suites (spec ∷ pools) runs w =
      let (fits, all) = run_suites-Fits spec.pool suites runs (d.of_nat 0) w in
      (
        record {
          named = refl;
          fits = fits;
          overall = ap (λ s. d.over s (d.of_nat (length suites))) all;
        },
        results_fit suites pools runs (run_pool d now spec suites runs w).1,
      )

-- ===== src/Harness/Calls.antt =====
-- The calls that the harness of ThreadPoolBenchmark/Helpers.h makes, in their order.
use thread_pool_backtesting.Base.{
  ℕ, zero, suc, ◌+◌, ◌*◌, ◌%◌, ◌≡◌, refl, sym, ap, ◌∙◌, List, [], ◌∷◌, ◌++◌, length, replicate, set,
  get_or, size_mod,
}
use thread_pool_backtesting.Harness.Doubles.{Double}
use thread_pool_backtesting.Harness.{
  Runner, TestSpec, SuiteSpec, PoolSpec, timed, run_tests, run_passes, run_suites, run_pool,
  run_all_pools_on_suites, convert,
}
use thread_pool_backtesting.Harness.Latency.{
  LatencyTestSpec, LatencySuiteSpec, latency_pass, latency_passes, latency_suites, latency_pool,
  run_latency_suites,
}

module _ {ℓ} {A B : Type ℓ} where
  -- What each element gives, one after the other.
  abbrev pub for_each : (A → List B) → List A → List B
  for_each f [] = []
  for_each f (x ∷ xs) = f x ++ for_each f xs

module _ {ℓ} {A : Type ℓ} where
  abbrev pub repeat : ℕ → List A → List A
  repeat zero xs = []
  repeat (suc n) xs = xs ++ repeat n xs

module _ {W : Type 0} where
  -- Calls made one after the other.
  abbrev pub make_all : List (W → W) → W → W
  make_all [] w = w
  make_all (call ∷ calls) w = make_all calls (call w)

  pub make_all-append :
      (before after : List (W → W)) (w : W)
      → make_all (before ++ after) w ≡ make_all after (make_all before w)
  make_all-append [] after w = refl
  make_all-append (call ∷ before) after w = make_all-append before after (call w)

module _ {D W : Type 0} (d : Double D) (now : W → ℕ × W) where
  -- The calls of a pass over a suite.
  abbrev pub pass_calls : Runner W → List (TestSpec W) → List (W → W)
  pass_calls pool [] = []
  pass_calls pool (test ∷ tests) = (λ w. (timed d now pool test w).1) ∷ pass_calls pool tests

  abbrev pub pool_calls : Runner W → List (SuiteSpec W) → ℕ → List (W → W)
  pool_calls pool suites runs = for_each (λ suite. repeat runs (pass_calls pool suite.tests)) suites

  -- The calls of runAllPoolsOnSuites: for each pool, for each suite, so many times, each test.
  abbrev pub timed_calls : List (SuiteSpec W) → List (PoolSpec W) → ℕ → List (W → W)
  timed_calls suites pools runs = for_each (λ spec. pool_calls spec.pool suites runs) pools

  run_tests-calls :
      (pool : Runner W) (tests : List (TestSpec W)) (t : ℕ) (row : List D) (w : W)
      → (run_tests d now pool t tests row w).1 ≡ make_all (pass_calls pool tests) w
  unfolding run_tests
  run_tests-calls pool [] t row w = refl
  run_tests-calls pool (test ∷ tests) t row w =
      let (dur_ms, w') = timed d now pool test w in
      run_tests-calls pool tests (t + 1) (set row t (d.plus (get_or row t (d.of_nat 0)) dur_ms)) w'

  run_passes-calls :
      (pool : Runner W) (tests : List (TestSpec W)) (runs : ℕ) (row : List D) (w : W)
      → (run_passes d now pool tests runs row w).1
        ≡ make_all (repeat runs (pass_calls pool tests)) w
  unfolding run_passes
  run_passes-calls pool tests zero row w = refl
  run_passes-calls pool tests (suc runs) row w =
      let pass = pass_calls pool tests in
      let (row', w') = run_tests d now pool 0 tests row w in
      run_passes-calls pool tests runs row' w'
      ∙ ap (make_all (repeat runs pass)) (run_tests-calls pool tests 0 row w)
      ∙ sym (make_all-append pass (repeat runs pass) w)

  run_suites-calls :
      (pool : Runner W) (suites : List (SuiteSpec W)) (runs : ℕ) (total : D) (w : W)
      → (run_suites d now pool suites runs total w).1 ≡ make_all (pool_calls pool suites runs) w
  unfolding run_suites
  run_suites-calls pool [] runs total w = refl
  run_suites-calls pool (suite ∷ suites) runs total w =
      let n_tests = length suite.tests in
      let row = replicate n_tests (d.of_nat 0) in
      let (totals, w1) = run_passes d now pool suite.tests runs row w in
      let suite_sum = (convert d now runs totals (d.of_nat 0)).1 in
      run_suites-calls pool suites runs (d.plus total (d.over suite_sum (d.of_nat n_tests))) w1
      ∙ ap (make_all (pool_calls pool suites runs)) (run_passes-calls pool suite.tests runs row w)
      ∙ sym (
          make_all-append (repeat runs (pass_calls pool suite.tests)) (pool_calls pool suites runs)
            w)

  -- The world that runAllPoolsOnSuites leaves.
  pub run_all_pools-calls :
      (suites : List (SuiteSpec W)) (pools : List (PoolSpec W)) (runs : ℕ) (w : W)
      → (run_all_pools_on_suites d now suites pools runs w).1
        ≡ make_all (timed_calls suites pools runs) w
  unfolding run_all_pools_on_suites run_pool
  run_all_pools-calls suites [] runs w = refl
  run_all_pools-calls suites (spec ∷ pools) runs w =
      run_all_pools-calls suites pools runs (run_pool d now spec suites runs w).1
      ∙ ap (make_all (timed_calls suites pools runs))
          (run_suites-calls spec.pool suites runs (d.of_nat 0) w)
      ∙ sym (make_all-append (pool_calls spec.pool suites runs) (timed_calls suites pools runs) w)

module _ {D W : Type 0} (d : Double D) where
  abbrev pub latency_pass_calls : Runner W → List (LatencyTestSpec D W) → List (W → W)
  latency_pass_calls pool [] = []
  latency_pass_calls pool (test ∷ tests) =
      (λ w. (test.test_func test.num_tasks pool w).1) ∷ latency_pass_calls pool tests

  abbrev pub latency_pool_calls : Runner W → List (LatencySuiteSpec D W) → ℕ → List (W → W)
  latency_pool_calls pool suites runs =
      for_each (λ suite. repeat runs (latency_pass_calls pool suite.tests)) suites

  -- The calls of runLatencySuites.
  abbrev pub latency_calls : List (LatencySuiteSpec D W) → List (PoolSpec W) → ℕ → List (W → W)
  latency_calls suites pools runs =
      for_each (λ spec. latency_pool_calls spec.pool suites runs) pools

  latency_pass-calls :
      (pool : Runner W) (tests : List (LatencyTestSpec D W)) (total : D) (w : W)
      → (latency_pass d pool tests total w).1 ≡ make_all (latency_pass_calls pool tests) w
  unfolding latency_pass
  latency_pass-calls pool [] total w = refl
  latency_pass-calls pool (test ∷ tests) total w =
      let (ns, w') = test.test_func test.num_tasks pool w in
      latency_pass-calls pool tests (d.plus total ns) w'

  latency_passes-calls :
      (pool : Runner W) (tests : List (LatencyTestSpec D W)) (runs : ℕ) (total : D) (w : W)
      → (latency_passes d pool tests runs total w).1
        ≡ make_all (repeat runs (latency_pass_calls pool tests)) w
  unfolding latency_passes
  latency_passes-calls pool tests zero total w = refl
  latency_passes-calls pool tests (suc runs) total w =
      let pass = latency_pass_calls pool tests in
      let (total', w') = latency_pass d pool tests total w in
      latency_passes-calls pool tests runs total' w'
      ∙ ap (make_all (repeat runs pass)) (latency_pass-calls pool tests total w)
      ∙ sym (make_all-append pass (repeat runs pass) w)

  latency_suites-calls :
      (pool : Runner W) (suites : List (LatencySuiteSpec D W)) (runs : ℕ) (total : D) (w : W)
      → (latency_suites d pool suites runs total w).1
        ≡ make_all (latency_pool_calls pool suites runs) w
  unfolding latency_suites
  latency_suites-calls pool [] runs total w = refl
  latency_suites-calls pool (suite ∷ suites) runs total w =
      let (ns, w1) = latency_passes d pool suite.tests runs (d.of_nat 0) w in
      let average = d.over ns (d.of_nat ((runs * length suite.tests) % size_mod)) in
      latency_suites-calls pool suites runs (d.plus total average) w1
      ∙ ap (make_all (latency_pool_calls pool suites runs))
          (latency_passes-calls pool suite.tests runs (d.of_nat 0) w)
      ∙ sym (
          make_all-append (repeat runs (latency_pass_calls pool suite.tests))
            (latency_pool_calls pool suites runs) w)

  -- The world that runLatencySuites leaves.
  pub run_latency-calls :
      (suites : List (LatencySuiteSpec D W)) (pools : List (PoolSpec W)) (runs : ℕ) (w : W)
      → (run_latency_suites d suites pools runs w).1 ≡ make_all (latency_calls suites pools runs) w
  unfolding run_latency_suites latency_pool
  run_latency-calls suites [] runs w = refl
  run_latency-calls suites (spec ∷ pools) runs w =
      run_latency-calls suites pools runs (latency_pool d spec suites runs w).1
      ∙ ap (make_all (latency_calls suites pools runs))
          (latency_suites-calls spec.pool suites runs (d.of_nat 0) w)
      ∙ sym (
          make_all-append (latency_pool_calls spec.pool suites runs)
            (latency_calls suites pools runs) w)

-- ===== src/Harness/Tests.antt =====
-- Concrete runs of the harness of ThreadPoolBenchmark/Helpers.h, and its theorems at them. The world is
-- a clock that each look moves on by a millisecond; doubles are whole numbers here.
use thread_pool_backtesting.Base.{
  ℕ, suc, ◌+◌, ◌-◌, ◌*◌, ◌/◌, ◌<◌, ◌≡◌, List, [], ◌∷◌, arith, length, ltb, leb, get_or, replicate,
  weigh,
}
use thread_pool_backtesting.Ranges.{sum_from}
use thread_pool_backtesting.Harness.Doubles.{Double, IsOrdered, add_all}
use thread_pool_backtesting.Harness.{
  Runner, TestSpec, SuiteSpec, PoolSpec, run_passes, run_all_pools_on_suites,
}
use thread_pool_backtesting.Harness.Totals.{all_passes, column, passes_add_up}
use thread_pool_backtesting.Harness.Results.{AreResults, results_fit}
use thread_pool_backtesting.Harness.Summary.{sort_by, iota}
use thread_pool_backtesting.Harness.Summary.Order.{Descending, order_by_score}

abbrev pub whole : Double ℕ
whole = record {
  of_nat = λ n. n;
  plus = λ a b. a + b;
  minus = λ a b. a - b;
  times = λ a b. a * b;
  over = λ a b. a / b;
  sqrt = λ a. a;
  log = λ a. a;
  less = ltb;
  at_least = λ a b. leb b a;
  max_value = 1000000;
  fixed = λ precision a. replicate a "1";
  rounded = λ a. replicate a "1";
}

whole-IsOrdered : IsOrdered whole
whole-IsOrdered = record {
  irreflexive = λ a. ground arith;
  transitive = λ a b c h k. ground arith;
  comparable = λ a b c h k. ground arith;
}

abbrev clock : ℕ → ℕ × ℕ
clock w = (w * 1000000, suc w)

-- A test that runs its tasks, and one that waits for a tick as well.
abbrev quick : TestSpec ℕ
quick = record {
  test_name = [];
  test_func = λ n pool w. pool (replicate n (λ w. w)) w;
  num_tasks = 2;
}

abbrev slow : TestSpec ℕ
slow = record { test_name = []; test_func = λ n pool w. suc w; num_tasks = 1 }

abbrev suite : SuiteSpec ℕ
suite = record { suite_name = replicate 3 "s"; tests = quick ∷ slow ∷ [] }

abbrev run_in_order : Runner ℕ
run_in_order [] w = w
run_in_order (task ∷ tasks) w = run_in_order tasks (task w)

abbrev pools : List (PoolSpec ℕ)
pools =
    record { pool_name = replicate 1 "p"; pool = run_in_order }
    ∷ record { pool_name = replicate 2 "q"; pool = λ tasks w. suc w }
    ∷ []

passes_add_up_example :
    let result = run_passes whole clock run_in_order (quick ∷ slow ∷ []) 3 (0 ∷ 0 ∷ []) 0 in
    let measured = all_passes whole clock run_in_order (quick ∷ slow ∷ []) 3 0 in
    (length result.0 ≡ 2)
    × ((t : ℕ)
        → t < 2
        → get_or result.0 t 0 ≡ add_all whole 0 (column whole clock run_in_order t measured.0))
    × (result.1 ≡ measured.1)
passes_add_up_example = passes_add_up whole clock run_in_order (quick ∷ slow ∷ []) 3 0

results_fit_example :
    AreResults whole
      (suite ∷ [])
      pools
      (run_all_pools_on_suites whole clock (suite ∷ []) pools 3 0).0
results_fit_example = results_fit whole clock (suite ∷ []) pools 3 0

order_by_score_example :
    (weigh (λ i. i) (sort_by whole (λ i. 5 - i) (iota 0 3)) ≡ sum_from (λ i. i) 0 3)
    × Descending whole (λ i. 5 - i) (sort_by whole (λ i. 5 - i) (iota 0 3))
order_by_score_example = order_by_score whole (λ i. 5 - i) 3 (λ i. i) whole-IsOrdered

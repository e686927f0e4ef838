-- ===== src/Main/Ran.antt =====
-- What the tests of ThreadPoolBenchmark/HighContention.h and FalseSharing.h leave under each of the runners that
-- main.cpp names. A task is known by its index.
use thread_pool_backtesting.Base.{
  ℕ, ◌^◌, ◌<◌, ◌≡◌, sym, ap, ◌∙◌, none, some, Option, List, [], arith, weigh, get_elem?, Perm,
  weigh-Perm, ℕ_discrete,
}
use thread_pool_backtesting.Ranges.{sum_from}
use thread_pool_backtesting.Ranges.Orders.{
  ascending, length-ascending, weigh-ascending, ordered, ordered-at, ordered-IsOrder,
}
use thread_pool_backtesting.Pool.{ThreadPool, outside}
use thread_pool_backtesting.Runners.{main_thread_pool}
use thread_pool_backtesting.Runners.Session.{Session}
use thread_pool_backtesting.Runners.Session.Order.{tasks_run, session-covers}
use thread_pool_backtesting.Runners.Moody.{Moody, MoodyReach, back}
use thread_pool_backtesting.Runners.Moody.Settled.{moody_runs_each_once}
use thread_pool_backtesting.Runners.Parallel.{
  Loops, IsLoops, ParallelRunner, ms_ppl_parallel_for, onetbb_parallel_for, dp_thread_pool,
  bs_thread_pool, task_thread_pool, taskflow_thread_pool, run_parallel, parallel_runs_each_once,
}
use thread_pool_backtesting.Contention.{
  test_atomic_increment, test_mutex_locking, test_false_sharing,
}
use thread_pool_backtesting.Contention.Counts.{of_slot, contention_counts}
use thread_pool_backtesting.Slots.{Spacing, place_of, value_of, test_slots}
use thread_pool_backtesting.Slots.Calls.{call-Written}
use thread_pool_backtesting.Main.{
  MainPool, main_pool, dp_pool, bs_pool, task_pool, taskflow_pool, moody_pool,
  ms_ppl_parallel_for_pool, onetbb_parallel_for_pool,
}

-- The runners over a library.
abbrev pub library_runner : MainPool → Option ParallelRunner
library_runner main_pool = none
library_runner dp_pool = some dp_thread_pool
library_runner bs_pool = some bs_thread_pool
library_runner task_pool = some task_thread_pool
library_runner taskflow_pool = some taskflow_thread_pool
library_runner moody_pool = none
library_runner ms_ppl_parallel_for_pool = some ms_ppl_parallel_for
library_runner onetbb_parallel_for_pool = some (onetbb_parallel_for 1)

-- The tasks that a runner, handed `n` of them, can have run, in their order, when it is back.
pub data RanBy (loops : Loops) (n : ℕ) (pool : MainPool) (xs : List ℕ) : Type 0 where
  by_main :
      {workers : ℕ} {p : ThreadPool ℕ}
      → pool ≡ main_pool
      → Session workers (main_thread_pool (ascending 0 n)) p []
      → p.callers 0 ≡ outside
      → tasks_run p ≡ xs
      → RanBy loops n pool xs
  by_moody :
      {workers : ℕ} {s : Moody ℕ}
      → pool ≡ moody_pool
      → MoodyReach workers (ascending 0 n) s
      → s.main_pc ≡ back
      → s.ran ≡ xs
      → RanBy loops n pool xs
  by_library :
      (runner : ParallelRunner)
      → library_runner pool ≡ some runner
      → run_parallel loops runner (ascending 0 n) ≡ some xs
      → RanBy loops n pool xs

RanBy-covers :
    (loops : Loops) (pool : MainPool) (n : ℕ) (xs : List ℕ) (w : ℕ → ℕ)
    → IsLoops loops
    → n < 2 ^ 31
    → RanBy loops n pool xs
    → weigh w xs ≡ sum_from w 0 n
RanBy-covers loops pool n xs w law small (by_main e r out f) =
    ap (weigh w) (sym f) ∙ session-covers n w r out (omega arith)
RanBy-covers loops pool n xs w law small (by_moody {workers} {s} e r returned f) =
    ap (weigh w) (sym f)
    ∙ (moody_runs_each_once workers (ascending 0 n) s (omega (arith, length-ascending 0 n)) r
          returned).0
        w
    ∙ weigh-ascending w 0 n
RanBy-covers loops pool n xs w law small (by_library runner e f) =
    let (done, g, k) =
      parallel_runs_each_once loops law w runner (ascending 0 n)
        (omega (arith, length-ascending 0 n)) in
    let same : done ≡ xs = cc in ap (weigh w) (sym same) ∙ k ∙ weigh-ascending w 0 n

-- Whichever of its eight runners main has run the tasks of a test (fewer than 2^31), with
-- libraries that make each of their calls once: when the runner is back, the tasks that it has run
-- are a permutation of the tasks, and with the tasks in the order in which they were run, the
-- atomic counter and the counter under the mutex end at the number of tasks, each slot of the
-- array at the number of its tasks, and the first call of a false-sharing test has no write out of
-- range and each task's value in that task's place.
pub main_counts :
    (loops : Loops) (pool : MainPool) (n : ℕ) (xs : List ℕ)
    → IsLoops loops
    → n < 2 ^ 31
    → RanBy loops n pool xs
    → Perm xs (ascending 0 n)
      × (order : ℕ → List ℕ) × (order n ≡ xs)
      × (test_atomic_increment order n ≡ some n)
      × (test_mutex_locking order n ≡ some n)
      × ((slots : ℕ → ℕ) × (test_false_sharing order n ≡ some slots)
          × ((k : ℕ) → slots k ≡ sum_from (of_slot k) 0 n))
      × ((spacing : Spacing)
          → (slots : List ℕ) × (test_slots order spacing n none ≡ some slots)
            × ((i : ℕ) → i < n → get_elem? slots (place_of spacing i) ≡ some (value_of spacing i)))
main_counts loops pool n xs law small ran =
    let covers : (w : ℕ → ℕ) → weigh w xs ≡ sum_from w 0 n =
      λ w. RanBy-covers loops pool n xs w law small ran in
    let each_once = ordered-IsOrder n xs covers in
    let order = ordered n xs in
    let (atomic, under_mutex, slots, array, counts) = contention_counts order n each_once small in
    (
      weigh-Perm ℕ_discrete xs (ascending 0 n) (λ w. covers w ∙ sym (weigh-ascending w 0 n)),
      order,
      ordered-at n xs,
      atomic,
      under_mutex,
      (slots, array, counts),
      λ spacing.
          let (vector, e, size, written) =
            call-Written order spacing n none each_once (omega arith) tt in
          (vector, e, written),
    )

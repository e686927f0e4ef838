-- ===== src/Runners/Session/Order.antt =====
-- The order in which the workers of main_ThreadPool of ThreadPoolBenchmark/main.cpp run the tasks of a test,
-- which are known by their indices.
use thread_pool_backtesting.Base.{
  ℕ, ◌<◌, ◌≡◌, refl, ◌∙◌, List, [], ◌∷◌, map, arith, weigh, size_mod,
}
use thread_pool_backtesting.Ranges.{sum_from}
use thread_pool_backtesting.Ranges.Orders.{ascending, length-ascending, weigh-ascending}
use thread_pool_backtesting.Pool.{ThreadPool, Outcome, outside}
use thread_pool_backtesting.Pool.Conservation.{ran}
use thread_pool_backtesting.Runners.{main_thread_pool}
use thread_pool_backtesting.Runners.Session.{Session}
use thread_pool_backtesting.Runners.Session.Result.{session_runs_each_once}

-- The tasks that the workers have run, in the order in which they ran them.
abbrev pub tasks_run : ThreadPool ℕ → List ℕ
tasks_run p = map (λ (task, outcome). task) p.log.finished

weigh-tasks :
    (w : ℕ → ℕ) (finished : List (ℕ × Outcome))
    → weigh w (map (λ (task, outcome). task) finished) ≡ weigh (ran w) finished
weigh-tasks w [] = refl
weigh-tasks w ((task, outcome) ∷ finished) = omega (arith, weigh-tasks w finished)

pub session-covers :
    {workers : ℕ} (n : ℕ) {p : ThreadPool ℕ} (w : ℕ → ℕ)
    → Session workers (main_thread_pool (ascending 0 n)) p []
    → p.callers 0 ≡ outside
    → n < size_mod
    → weigh w (tasks_run p) ≡ sum_from w 0 n
session-covers n {p} w r out small =
    weigh-tasks w p.log.finished
    ∙ (session_runs_each_once w r out (omega (arith, length-ascending 0 n))).0
    ∙ weigh-ascending w 0 n

-- ===== src/Runners.antt =====
-- The runners of ThreadPoolBenchmark/main.cpp: how each benchmarked pool is handed a vector of tasks.
pub mod Session
pub mod Batched
pub mod Parallel
pub mod Dispatch
pub mod Moody
pub mod Polling
mod Play
pub mod Tests
use thread_pool_backtesting.Base.{false, List, [], ◌∷◌}
use thread_pool_backtesting.Pool.{
  Request, try_enqueue_task, shutdown_immediately, shutdown_process_remaining_tasks,
}

module _ {T : Type 0} where
  -- `~ThreadPool`
  abbrev pub destroy : Request T
  destroy = shutdown_immediately

  -- The calls that `main_ThreadPool` and `main_ThreadPool_Affinity` make on the pool that they
  -- construct, in order, up to its destructor.
  unfoldable pub main_thread_pool : List T → List (Request T)
  main_thread_pool [] = shutdown_process_remaining_tasks ∷ destroy ∷ []
  main_thread_pool (task ∷ tasks) = try_enqueue_task task false ∷ main_thread_pool tasks

-- ===== src/Runners/Batched.antt =====
-- The runners of ThreadPoolBenchmark/main.cpp that hand tasks over in batches:
-- main_ThreadPool_Batched_16, which cuts the submission into blocks of 16, and
-- main_oneTBB_Batched_ThreadPool, whose pool runs each batch under tbb::parallel_for.
pub mod Order
pub mod Collected
use thread_pool_backtesting.Base.{
  ℕ, suc, ◌==◌, Option, none, some, List, [], ◌∷◌, ◌++◌, length, if◌then◌else◌, weigh,
}
use thread_pool_backtesting.Ranges.{◌>>=◌, run_ranges}
use thread_pool_backtesting.Ranges.Chunks.{chunks}
use thread_pool_backtesting.Tbb.{Tbb, auto_partitioner}
use thread_pool_backtesting.Pool.{Request}
use thread_pool_backtesting.Runners.{main_thread_pool}

module _ {T : Type 0} where
  -- The calls of `main_ThreadPool_Batched_16`; `none` is an index out of range.
  unfoldable pub batched_16 : List T → Option (List (Request T))
  batched_16 tasks = do
    order ← run_ranges tasks (chunks (length tasks) 16)
    some (main_thread_pool order)

  -- What follows the loop: the batch that is left, if it holds anything.
  abbrev pub leftovers : List T → List (List T)
  leftovers [] = []
  leftovers (task ∷ batch) = (task ∷ batch) ∷ []

  -- The batches that `main_oneTBB_Batched_ThreadPool` submits, where `batch` is its buffer.
  unfoldable pub collect : (batch_size : ℕ) → List T → List T → List (List T)
  collect batch_size batch [] = leftovers batch
  collect batch_size batch (task ∷ tasks) =
      let grown = batch ++ task ∷ [] in
      let after_flush = collect batch_size [] tasks in
      let later = collect batch_size grown tasks in
      if length grown == batch_size then grown ∷ after_flush else later

  -- The calls of `main_oneTBB_Batched_ThreadPool`.
  unfoldable pub onetbb_batched : (batch_size : ℕ) → List T → List (Request (List T))
  onetbb_batched batch_size tasks = main_thread_pool (collect batch_size [] tasks)

  -- The function that the pool runs for a batch.
  unfoldable pub exec_batch : Tbb → List T → Option (List T)
  exec_batch tbb batch = run_ranges batch (tbb.parallel_for auto_partitioner (length batch))

  abbrev weight_of_run : (T → ℕ) → Option (List T) → ℕ
  weight_of_run w none = 0
  weight_of_run w (some done) = weigh w done

  -- What a batch runs, weighed.
  abbrev pub executed : Tbb → (T → ℕ) → List T → ℕ
  executed tbb w batch = weight_of_run w (exec_batch tbb batch)

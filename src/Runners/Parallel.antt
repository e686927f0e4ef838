-- ===== src/Runners/Parallel.antt =====
-- The runners of ThreadPoolBenchmark/main.cpp that hand the vector to a library's parallel loop, group or
-- pool, as a whole or task by task, and return when it has run it. The libraries (oneTBB, PPL, OpenMP,
-- Taskflow and the vendored pools) are outside the model.
use thread_pool_backtesting.Base.{
  ℕ, ◌%◌, ◌^◌, ◌<◌, ◌≡◌, refl, ◌∙◌, Option, some, List, arith, length, ltb, if◌then◌else◌, weigh,
}
use thread_pool_backtesting.Ranges.{
  ◌>>=◌, run_ranges, sum_from, over_range, AllWithin, Runs, run_ranges-Runs, sum_from-length,
  weight_at,
}
use thread_pool_backtesting.Ranges.Chunks.{
  chunks, chunks_cover, gather, gather-Runs, gather-AllWithin, AllBelow,
}

-- What the runners use of the libraries.
pub record Loops : Type 0 where
  -- The subranges with which `tbb::parallel_for` over `blocked_range(0, n, grain)` calls its body.
  pub split : (grain n : ℕ) → List (ℕ × ℕ)
  -- The order in which `n` calls end, by number: the iterations of `concurrency::parallel_for`, of an
  -- OpenMP loop and of `tbb::parallel_for` with a step, the functions of a task group or of a task flow,
  -- and the tasks of a pool up to the end of its wait.
  pub order : ℕ → List ℕ

-- Each index is in one subrange, and each of the calls is made once.
pub record IsLoops (l : Loops) : Type 0 where
  pub split_within : (grain n : ℕ) → AllWithin n (l.split grain n)
  pub split_covers :
      (grain n : ℕ) (w : ℕ → ℕ) → weigh (over_range w) (l.split grain n) ≡ sum_from w 0 n
  pub order_below : (n : ℕ) → AllBelow n (l.order n)
  pub order_covers : (n : ℕ) (w : ℕ → ℕ) → weigh w (l.order n) ≡ sum_from w 0 n

pub data ParallelRunner : Type 0 where
  ms_ppl_task_group : ParallelRunner
  ms_ppl_parallel_for : ParallelRunner
  openmp_parallel_for : ParallelRunner
  onetbb_parallel_for : (grain : ℕ) → ParallelRunner
  onetbb_task_group_fusion : ParallelRunner
  onetbb_static_unrolled : ParallelRunner
  -- one submission for each task, and a wait for all
  dp_thread_pool bs_thread_pool task_thread_pool taskflow_thread_pool : ParallelRunner

-- The bound of a loop over `int` from 0: `static_cast<int>(count)`, which is negative, so that no round
-- is made, if bit 31 is set.
abbrev pub static_cast_int : ℕ → ℕ
static_cast_int count = if ltb (count % 2 ^ 32) (2 ^ 31) then count % 2 ^ 32 else 0

module _ {T : Type 0} (loops : Loops) where
  -- One call for each chunk `[i, min(i + chunk_size, n))`.
  abbrev pub run_chunked : (chunk_size : ℕ) → List T → Option (List T)
  run_chunked chunk_size tasks = do
    let starts = chunks (length tasks) chunk_size
    calls ← gather starts (loops.order (length starts))
    run_ranges tasks calls

  -- DP_ThreadPool, BS_ThreadPool, task_ThreadPool and Taskflow_ThreadPool: each task is handed over, and
  -- then the runner waits for all.
  abbrev pub run_pooled : List T → Option (List T)
  run_pooled tasks = gather tasks (loops.order (length tasks))

  -- The tasks that a runner has run when it returns, by their ends; `none` is an index out of range.
  unfoldable pub run_parallel : ParallelRunner → List T → Option (List T)
  run_parallel ms_ppl_task_group tasks = gather tasks (loops.order (length tasks))
  run_parallel ms_ppl_parallel_for tasks =
      gather tasks (loops.order (static_cast_int (length tasks)))
  run_parallel openmp_parallel_for tasks =
      gather tasks (loops.order (static_cast_int (length tasks)))
  run_parallel (onetbb_parallel_for grain) tasks =
      run_ranges tasks (loops.split grain (length tasks))
  run_parallel onetbb_task_group_fusion tasks = run_chunked 32 tasks
  run_parallel onetbb_static_unrolled tasks = run_chunked 64 tasks
  run_parallel dp_thread_pool tasks = run_pooled tasks
  run_parallel bs_thread_pool tasks = run_pooled tasks
  run_parallel task_thread_pool tasks = run_pooled tasks
  run_parallel taskflow_thread_pool tasks = run_pooled tasks

  module _ (law : IsLoops loops) (w : T → ℕ) where
    order-Runs :
        (tasks : List T) (n : ℕ)
        → n ≡ length tasks
        → Runs w (gather tasks (loops.order n)) (weigh w tasks)
    order-Runs tasks n e =
        let (ts, f, k) =
          gather-Runs w tasks (loops.order (length tasks)) (law.order_below (length tasks)) in
        (
          ts,
          rw e f,
          k ∙ law.order_covers (length tasks) (weight_at w tasks) ∙ sum_from-length w tasks,
        )

    run_chunked-Runs :
        (chunk_size : ℕ) (tasks : List T)
        → 0 < chunk_size
        → Runs w (run_chunked chunk_size tasks) (weigh w tasks)
    run_chunked-Runs chunk_size tasks pos =
        let starts = chunks (length tasks) chunk_size in
        let cover = chunks_cover (weight_at w tasks) (length tasks) chunk_size pos in
        let (calls, e, within, k) =
          gather-AllWithin (weight_at w tasks) (length tasks) starts (loops.order (length starts))
            cover.0 (law.order_below (length starts)) in
        let (ts, f, l) = run_ranges-Runs w tasks calls within in
        (
          ts,
          rw e f,
          l
              ∙ k
              ∙ law.order_covers (length starts) (weight_at (over_range (weight_at w tasks)) starts)
              ∙ sum_from-length (over_range (weight_at w tasks)) starts
              ∙ cover.1
              ∙ sum_from-length w tasks,
        )

    -- Each of the runners over a parallel loop, a group or a pool, on fewer than 2^31 tasks and
    -- with libraries that make each of their calls once, finds every index in range and has run
    -- each task exactly once when it returns (the weight is arbitrary).
    pub parallel_runs_each_once :
        (runner : ParallelRunner) (tasks : List T)
        → length tasks < 2 ^ 31
        → (done : List T) × (run_parallel runner tasks ≡ some done) × (weigh w done ≡ weigh w tasks)
    unfolding run_parallel
    parallel_runs_each_once ms_ppl_task_group tasks small = order-Runs tasks (length tasks) refl
    parallel_runs_each_once ms_ppl_parallel_for tasks small =
        order-Runs tasks (static_cast_int (length tasks)) (ground arith)
    parallel_runs_each_once openmp_parallel_for tasks small =
        order-Runs tasks (static_cast_int (length tasks)) (ground arith)
    parallel_runs_each_once (onetbb_parallel_for grain) tasks small =
        let (ts, e, k) =
          run_ranges-Runs w tasks (loops.split grain (length tasks))
            (law.split_within grain (length tasks)) in
        (
          ts,
          e,
          k ∙ law.split_covers grain (length tasks) (weight_at w tasks) ∙ sum_from-length w tasks,
        )
    parallel_runs_each_once onetbb_task_group_fusion tasks small =
        run_chunked-Runs 32 tasks (omega arith)
    parallel_runs_each_once onetbb_static_unrolled tasks small =
        run_chunked-Runs 64 tasks (omega arith)
    parallel_runs_each_once dp_thread_pool tasks small = order-Runs tasks (length tasks) refl
    parallel_runs_each_once bs_thread_pool tasks small = order-Runs tasks (length tasks) refl
    parallel_runs_each_once task_thread_pool tasks small = order-Runs tasks (length tasks) refl
    parallel_runs_each_once taskflow_thread_pool tasks small = order-Runs tasks (length tasks) refl

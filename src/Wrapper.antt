-- ===== src/Wrapper.antt =====
-- ThreadPoolBenchmark/oneTBB_Wrapper.h, as one thread uses it. `none` is an index out of range.
pub mod Bulk
pub mod Streamed
pub mod Shutdown
mod Tests
use thread_pool_backtesting.Base.{
  ℕ, zero, suc, ◌+◌, ◌-◌, ◌*◌, ◌/◌, ◌%◌, max, Bool, true, false, not, ◌&&◌, Option, none, some,
  List, [], ◌∷◌, ◌++◌, length, ltb, leb, ◌==◌, if◌then◌else◌, size_mod,
}
use thread_pool_backtesting.Queue.{Attempt, blocked, returns}
use thread_pool_backtesting.Ranges.{◌>>=◌, run_ranges}
use thread_pool_backtesting.Ranges.Chunks.{chunks, gather}
use thread_pool_backtesting.Tbb.{
  Tbb, Partitioner, auto_partitioner, affinity_partitioner, static_partitioner,
}

pub data Strategy : Type 0 where
  bulk_parallel_auto : Strategy
  bulk_parallel_affinity : Strategy
  bulk_parallel_static : Strategy
  task_group : Strategy
  task_group_batched : Strategy
  task_group_batched_streamed : Strategy
  task_group_batched_streamed_affinity : Strategy

-- A wrapper, the three `static thread_local` buffers of the thread that uses it, each named for the
-- function that declares it, and the tasks that have run, in the order of their ends.
pub record Wrapper (T : Type 0) : Type 0 where
  pub queue_size : ℕ
  pub max_queue_size : ℕ
  pub streamed_buffer : List T
  pub streamed_affinity_buffer : List T
  pub flush_buffer : List T
  pub ran : List T

-- `fetch_add` and `fetch_sub` on a `size_t`
abbrev pub fetch_add : ℕ → ℕ → ℕ
fetch_add n k = (n + k) % size_mod

abbrev pub fetch_sub : ℕ → ℕ → ℕ
fetch_sub n k = (n + size_mod - k) % size_mod

-- The default of the parameter `flushBatchSize`.
abbrev pub flush_batch_size : ℕ
flush_batch_size = 64

-- `std::max<size_t>(64, taskCount / (arena_.max_concurrency() * 4))`; `none` is a division by 0.
abbrev pub batch_size : Tbb → ℕ → Option ℕ
batch_size tbb count =
    if tbb.max_concurrency == 0 then none else some (max 64 (count / (tbb.max_concurrency * 4)))

module _ {T : Type 0} where
  -- The constructor; the buffers are the thread's and outlive the wrapper.
  unfoldable pub construct :
      (max_queue_size : ℕ) (streamed_buffer streamed_affinity_buffer flush_buffer : List T)
      → Wrapper T
  construct max_queue_size streamed affinity flush = record {
    queue_size = 0;
    max_queue_size = max_queue_size;
    streamed_buffer = streamed;
    streamed_affinity_buffer = affinity;
    flush_buffer = flush;
    ran = [];
  }

  unfoldable pub get_queue_size : Wrapper T → ℕ
  get_queue_size s = s.queue_size

  -- The end of each run: the tasks have run, and the counter goes down by `count`.
  pub finish_run : Wrapper T → ℕ → List T → Wrapper T
  finish_run s count done = record s {
    ran = s.ran ++ done;
    queue_size = fetch_sub s.queue_size count;
  }

  abbrev pub is_over_limit : Wrapper T → ℕ → Bool
  is_over_limit s count =
      not (s.max_queue_size == 0) && ltb s.max_queue_size ((s.queue_size + count) % size_mod)

  abbrev accepted : Option (Wrapper T) → Option (Wrapper T × Bool)
  accepted none = none
  accepted (some s) = some (s, true)

  -- The wait for `queueSize_` to be 0. Only this thread changes it, so a wait that does not end at
  -- once does not end.
  abbrev await_drained : Option (Wrapper T) → Option (Attempt (Wrapper T))
  await_drained none = none
  await_drained (some s) = some (if ltb 0 s.queue_size then blocked else returns s)

  module _ (tbb : Tbb) where
    abbrev for_all : Partitioner → List T → Option (List T)
    for_all p tasks = run_ranges tasks (tbb.parallel_for p (length tasks))

    pub bulk_parallel : Wrapper T → List T → Partitioner → Option (Wrapper T)
    unfolding finish_run
    bulk_parallel s tasks p = do done ← for_all p tasks; some (finish_run s (length tasks) done)

    pub run_task_group : Wrapper T → List T → Option (Wrapper T)
    unfolding finish_run
    run_task_group s tasks = do
      done ← gather tasks (tbb.task_group (length tasks))
      some (finish_run s (length tasks) done)

    pub run_task_group_batched : Wrapper T → List T → Option (Wrapper T)
    unfolding finish_run
    run_task_group_batched s tasks = do
      step ← batch_size tbb (length tasks)
      let batches = chunks (length tasks) step
      order ← gather batches (tbb.task_group (length batches))
      done ← run_ranges tasks order
      some (finish_run s (length tasks) done)

    -- `fetch_add`, a run under `parallel_for`, `fetch_sub`.
    pub submit : Wrapper T → List T → Partitioner → Option (Wrapper T)
    unfolding finish_run
    submit s tasks p = do
      done ← for_all p tasks
      some (
          finish_run (record s { queue_size = fetch_add s.queue_size (length tasks) })
            (length tasks) done)

    pub run_task_group_batched_streamed : Wrapper T → List T → Option (Wrapper T)
    run_task_group_batched_streamed s tasks =
        if ltb flush_batch_size (length tasks)
        then submit s tasks auto_partitioner
        else (let buffer = s.streamed_buffer ++ tasks in
            if leb flush_batch_size (length buffer)
            then submit (record s { streamed_buffer = [] }) buffer auto_partitioner
            else some (record s { streamed_buffer = buffer }))

    pub run_task_group_batched_streamed_affinity : Wrapper T → List T → Option (Wrapper T)
    run_task_group_batched_streamed_affinity s tasks =
        if ltb flush_batch_size (length tasks)
        then submit s tasks affinity_partitioner
        else (let buffer = s.streamed_affinity_buffer ++ tasks in
            if leb flush_batch_size (length buffer)
            then submit (record s { streamed_affinity_buffer = [] }) buffer auto_partitioner
            else some (record s { streamed_affinity_buffer = buffer }))

    -- The `buffer` of this function is its own: neither of the two above.
    pub flush_streamed_tasks : Wrapper T → Option (Wrapper T)
    flush_streamed_tasks s =
        if length s.flush_buffer == 0
        then some s
        else submit (record s { flush_buffer = [] }) s.flush_buffer auto_partitioner

    -- The `switch` of `tryEnqueue`, behind its `fetch_add`.
    unfoldable pub dispatch : Wrapper T → List T → Strategy → Option (Wrapper T)
    dispatch s tasks bulk_parallel_auto = bulk_parallel s tasks auto_partitioner
    dispatch s tasks bulk_parallel_affinity = bulk_parallel s tasks affinity_partitioner
    dispatch s tasks bulk_parallel_static = bulk_parallel s tasks static_partitioner
    dispatch s tasks task_group_batched = run_task_group_batched s tasks
    dispatch s tasks task_group = run_task_group s tasks
    dispatch s tasks task_group_batched_streamed = run_task_group_batched_streamed s tasks
    dispatch s tasks task_group_batched_streamed_affinity =
        run_task_group_batched_streamed_affinity s tasks

    unfoldable pub try_enqueue : Wrapper T → List T → Strategy → Option (Wrapper T × Bool)
    try_enqueue s tasks strategy =
        if length tasks == 0
        then some (s, true)
        else if is_over_limit s (length tasks)
        then some (s, false)
        else accepted (
            dispatch (record s { queue_size = fetch_add s.queue_size (length tasks) }) tasks
              strategy)

    unfoldable pub shutdown_process_remaining_tasks : Wrapper T → Option (Attempt (Wrapper T))
    unfolding flush_streamed_tasks
    shutdown_process_remaining_tasks s = await_drained (flush_streamed_tasks s)

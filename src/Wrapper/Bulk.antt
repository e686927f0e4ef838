-- ===== src/Wrapper/Bulk.antt =====
-- The strategies that run what they are given at once (ThreadPoolBenchmark/oneTBB_Wrapper.h:
-- bulk_parallel, run_task_group, run_task_group_batched and tryEnqueue).
use thread_pool_backtesting.Base.{
  ℕ, ◌+◌, ◌*◌, ◌/◌, ◌<◌, ◌≡◌, refl, ◌∙◌, max, true, false, Option, some, List, [], ◌∷◌, length,
  size_mod, weigh, weigh-append, arith,
}
use thread_pool_backtesting.Ranges.{Runs, run_ranges-Runs, sum_from-length, weight_at, over_range}
use thread_pool_backtesting.Ranges.Chunks.{
  chunks, chunks_cover, gather, gather-Runs, gather-AllWithin,
}
use thread_pool_backtesting.Tbb.{
  Tbb, IsTbb, Partitioner, auto_partitioner, affinity_partitioner, static_partitioner,
}
use thread_pool_backtesting.Wrapper.{
  Wrapper, Strategy, bulk_parallel_auto, bulk_parallel_affinity, bulk_parallel_static, task_group,
  task_group_batched, task_group_batched_streamed, task_group_batched_streamed_affinity, fetch_add,
  finish_run, bulk_parallel, run_task_group, run_task_group_batched, batch_size, dispatch,
  try_enqueue, is_over_limit, for_all,
}

-- All strategies but the two streamed ones.
abbrev pub IsBulk : Strategy → Type 0
IsBulk task_group_batched_streamed = ⊥
IsBulk task_group_batched_streamed_affinity = ⊥
IsBulk _ = Unit {0}

module _ {T : Type 0} (tbb : Tbb) where
  pub try_enqueue-some :
      (s s' : Wrapper T) (tasks : List T) (strategy : Strategy)
      → 0 < length tasks
      → is_over_limit s (length tasks) ≡ false
      → dispatch tbb
          (record s { queue_size = fetch_add s.queue_size (length tasks) })
          tasks
          strategy
        ≡ some s'
      → try_enqueue tbb s tasks strategy ≡ some (s', true)
  unfolding try_enqueue
  try_enqueue-some s s' tasks strategy some_tasks fits e = ground arith

  -- Over a limit, as long as the counter and the tasks together stay below 2^64, nothing changes
  -- and the call reports failure, whatever the strategy.
  over_limit_rejected :
      (s : Wrapper T) (tasks : List T) (strategy : Strategy)
      → 0 < length tasks
      → 0 < s.max_queue_size
      → s.queue_size + length tasks < size_mod
      → s.max_queue_size < s.queue_size + length tasks
      → try_enqueue tbb s tasks strategy ≡ some (s, false)
  unfolding try_enqueue
  over_limit_rejected s tasks strategy some_tasks limited small over = ground arith

module _ {T : Type 0} (tbb : Tbb) (law : IsTbb tbb) (w : T → ℕ) where
  pub for_all-Runs :
      (p : Partitioner) (tasks : List T) → Runs w (for_all tbb p tasks) (weigh w tasks)
  for_all-Runs p tasks =
      let (ts, e, k) =
        run_ranges-Runs w tasks (tbb.parallel_for p (length tasks))
          (law.ranges_within p (length tasks)) in
      (ts, e, k ∙ law.ranges_cover p (length tasks) (weight_at w tasks) ∙ sum_from-length w tasks)

  group-Runs :
      (tasks : List T) → Runs w (gather tasks (tbb.task_group (length tasks))) (weigh w tasks)
  group-Runs tasks =
      let (ts, e, k) =
        gather-Runs w tasks (tbb.task_group (length tasks)) (law.group_within (length tasks)) in
      (ts, e, k ∙ law.group_covers (length tasks) (weight_at w tasks) ∙ sum_from-length w tasks)

  -- A run that started with the counter raised by `count` leaves it as it was before that.
  abbrev Finished : Wrapper T → List T → Option (Wrapper T) → Type 0
  Finished s tasks r =
      (done : List T) × (r ≡ some (finish_run s (length tasks) done))
      × (weigh w done ≡ weigh w tasks)

  bulk_parallel_lem :
      (s : Wrapper T) (tasks : List T) (p : Partitioner)
      → Finished s tasks (bulk_parallel tbb s tasks p)
  unfolding bulk_parallel
  bulk_parallel_lem s tasks p = let (ts, e, k) = for_all-Runs p tasks in (ts, rw e refl, k)

  run_task_group_lem :
      (s : Wrapper T) (tasks : List T) → Finished s tasks (run_task_group tbb s tasks)
  unfolding run_task_group
  run_task_group_lem s tasks = let (ts, e, k) = group-Runs tasks in (ts, rw e refl, k)

  batch_size-some : (count : ℕ) → (step : ℕ) × (0 < step) × (batch_size tbb count ≡ some step)
  batch_size-some count = (
    max 64 (count / (tbb.max_concurrency * 4)),
    omega arith,
    ground (arith, law.some_concurrency),
  )

  run_task_group_batched_lem :
      (s : Wrapper T) (tasks : List T) → Finished s tasks (run_task_group_batched tbb s tasks)
  unfolding run_task_group_batched
  run_task_group_batched_lem s tasks =
      let (step, positive, found) = batch_size-some (length tasks) in
      let batches = chunks (length tasks) step in
      let cover = chunks_cover (weight_at w tasks) (length tasks) step positive in
      let (order, e, within, k) =
        gather-AllWithin (weight_at w tasks) (length tasks) batches
          (tbb.task_group (length batches)) cover.0 (law.group_within (length batches)) in
      let (ts, f, l) = run_ranges-Runs w tasks order within in
      (
        ts,
        rw (found, e, f) refl,
        l
            ∙ k
            ∙ law.group_covers (length batches) (weight_at (over_range (weight_at w tasks)) batches)
            ∙ sum_from-length (over_range (weight_at w tasks)) batches
            ∙ cover.1
            ∙ sum_from-length w tasks,
      )

  dispatch-Finished :
      (s : Wrapper T) (tasks : List T) (strategy : Strategy)
      → IsBulk strategy
      → Finished s tasks (dispatch tbb s tasks strategy)
  unfolding dispatch
  dispatch-Finished s tasks bulk_parallel_auto h = bulk_parallel_lem s tasks auto_partitioner
  dispatch-Finished s tasks bulk_parallel_affinity h =
      bulk_parallel_lem s tasks affinity_partitioner
  dispatch-Finished s tasks bulk_parallel_static h = bulk_parallel_lem s tasks static_partitioner
  dispatch-Finished s tasks task_group h = run_task_group_lem s tasks
  dispatch-Finished s tasks task_group_batched h = run_task_group_batched_lem s tasks
  dispatch-Finished s tasks task_group_batched_streamed h = absurd h
  dispatch-Finished s tasks task_group_batched_streamed_affinity h = absurd h

  -- Each strategy but the two streamed ones, when the tasks fit within the limit and the counter
  -- and the number of tasks are below 2^64: the call reports success, each task has run once more
  -- than before (the weight is arbitrary), the counter is back where it was, and the buffers are
  -- untouched. oneTBB runs each index and each function of a group once.
  pub bulk_runs_each_once :
      (s : Wrapper T) (tasks : List T) (strategy : Strategy)
      → IsBulk strategy
      → is_over_limit s (length tasks) ≡ false
      → s.queue_size < size_mod
      → length tasks < size_mod
      → (s' : Wrapper T) × (try_enqueue tbb s tasks strategy ≡ some (s', true))
        × (weigh w s'.ran ≡ weigh w s.ran + weigh w tasks)
        × (s'.queue_size ≡ s.queue_size)
        × (s'.streamed_buffer ≡ s.streamed_buffer)
        × (s'.streamed_affinity_buffer ≡ s.streamed_affinity_buffer)
        × (s'.flush_buffer ≡ s.flush_buffer)
  unfolding try_enqueue finish_run
  bulk_runs_each_once s [] strategy b fits q n = (s, refl, omega arith, refl, refl, refl, refl)
  bulk_runs_each_once s (t ∷ ts) strategy b fits q n =
      let raised = record s { queue_size = fetch_add s.queue_size (length (t ∷ ts)) } in
      let (done, e, k) = dispatch-Finished raised (t ∷ ts) strategy b in
      (
        finish_run raised (length (t ∷ ts)) done,
        try_enqueue-some tbb s (finish_run raised (length (t ∷ ts)) done) (t ∷ ts) strategy
            (omega arith) fits e,
        omega (arith, weigh-append w s.ran done, k),
        omega arith,
        refl,
        refl,
        refl,
      )

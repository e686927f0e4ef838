-- ===== src/Wrapper/Tests.antt =====
-- Concrete runs of ThreadPoolBenchmark/oneTBB_Wrapper.h over one thread that takes the work as it
-- comes, and the theorems at them. A task is a number.
use thread_pool_backtesting.Base.{
  ℕ, ◌+◌, ◌%◌, ◌<◌, ◌≡◌, refl, true, some, List, [], ◌∷◌, arith, length, weigh, size_mod,
}
use thread_pool_backtesting.Queue.{blocked}
use thread_pool_backtesting.Tbb.{sequential, sequential-IsTbb}
use thread_pool_backtesting.Wrapper.{
  Wrapper, task_group_batched, task_group_batched_streamed, task_group_batched_streamed_affinity,
  construct, try_enqueue, shutdown_process_remaining_tasks,
}
use thread_pool_backtesting.Wrapper.Bulk.{bulk_runs_each_once}
use thread_pool_backtesting.Wrapper.Streamed.{plain, affine, streaming_leaves_counter}
use thread_pool_backtesting.Wrapper.Shutdown.{streaming_shutdown_hangs}

abbrev three : List ℕ
three = 4 ∷ 5 ∷ 6 ∷ []

-- A wrapper with a limit of eight tasks, two of them pending, and one task in the streamed buffer.
abbrev limited : Wrapper ℕ
limited = record {
  queue_size = 2;
  max_queue_size = 8;
  streamed_buffer = 9 ∷ [];
  streamed_affinity_buffer = [];
  flush_buffer = [];
  ran = 1 ∷ [];
}

bulk_runs_each_once_example :
    (s : Wrapper ℕ) × (try_enqueue sequential limited three task_group_batched ≡ some (s, true))
    × (weigh (λ t. t) s.ran ≡ 1 + weigh (λ t. t) three)
    × (s.queue_size ≡ 2)
    × (s.streamed_buffer ≡ 9 ∷ [])
    × (s.streamed_affinity_buffer ≡ [])
    × (s.flush_buffer ≡ [])
bulk_runs_each_once_example =
    bulk_runs_each_once sequential sequential-IsTbb (λ t. t) limited three task_group_batched tt
      refl (omega arith) (omega arith)

streaming_leaves_counter_example :
    (s : Wrapper ℕ) × (try_enqueue sequential limited three task_group_batched_streamed
      ≡ some (s, true))
    × (weigh (λ t. t) s.ran + weigh (λ t. t) s.streamed_buffer ≡ 1 + 9 + weigh (λ t. t) three)
    × (length s.streamed_buffer < 64)
    × (s.queue_size ≡ (2 + 3) % size_mod)
    × (s.flush_buffer ≡ [])
    × (1 + 3 < 64 → s.ran ≡ 1 ∷ [])
streaming_leaves_counter_example =
    streaming_leaves_counter sequential sequential-IsTbb (λ t. t) limited three plain (omega arith)
      (omega arith) refl (omega arith)

streaming_shutdown_hangs_example :
    (s : Wrapper ℕ) × (try_enqueue sequential
        (construct 0 [] [] [])
        three
        task_group_batched_streamed_affinity
      ≡ some (s, true))
    × (shutdown_process_remaining_tasks sequential s ≡ some blocked)
    × (length three < 64 → s.ran ≡ [])
streaming_shutdown_hangs_example =
    streaming_shutdown_hangs sequential sequential-IsTbb three affine (omega arith) (omega arith)

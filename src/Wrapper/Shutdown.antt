-- ===== src/Wrapper/Shutdown.antt =====
-- What shutdownProcessRemainingTasks waits for (ThreadPoolBenchmark/oneTBB_Wrapper.h).
use thread_pool_backtesting.Base.{
  ℕ, ◌<◌, ◌≡◌, refl, ◌∙◌, true, false, some, List, [], length, ltb, size_mod, weigh, arith,
}
use thread_pool_backtesting.Queue.{blocked, returns}
use thread_pool_backtesting.Tbb.{Tbb, IsTbb}
use thread_pool_backtesting.Wrapper.{
  Wrapper, Strategy, construct, try_enqueue, flush_batch_size, shutdown_process_remaining_tasks,
}
use thread_pool_backtesting.Wrapper.Bulk.{IsBulk, bulk_runs_each_once}
use thread_pool_backtesting.Wrapper.Streamed.{Streamed, plain, affine, streaming_leaves_counter}

module _ {T : Type 0} (tbb : Tbb) where
  -- With nothing in the buffer that `flush_streamed_tasks` declares, which no other function fills, a
  -- shutdown runs nothing, and it returns exactly when the counter is 0.
  pub shutdown_waits :
      (s : Wrapper T)
      → s.flush_buffer ≡ []
      → shutdown_process_remaining_tasks tbb s
        ≡ some (elim (ltb 0 s.queue_size) [ true ↦ blocked | false ↦ returns s ])
  unfolding shutdown_process_remaining_tasks
  shutdown_waits s e = ground arith

  fresh-buffer :
      {strategy : Strategy} {buffer : Wrapper T → List T}
      → Streamed strategy buffer
      → buffer (construct 0 [] [] []) ≡ []
  unfolding construct
  fresh-buffer plain = refl
  fresh-buffer affine = refl

  -- A thread whose buffers are empty makes a wrapper with no limit and hands it at least one task
  -- (fewer than 2^64) with a streamed strategy: the shutdown that follows never returns, and of
  -- fewer than 64 tasks none has run.
  pub streaming_shutdown_hangs :
      (law : IsTbb tbb) {strategy : Strategy} {buffer : Wrapper T → List T} (tasks : List T)
      → Streamed strategy buffer
      → 0 < length tasks
      → length tasks < size_mod
      → (s : Wrapper T) × (try_enqueue tbb (construct 0 [] [] []) tasks strategy ≡ some (s, true))
        × (shutdown_process_remaining_tasks tbb s ≡ some blocked)
        × (length tasks < flush_batch_size → s.ran ≡ [])
  unfolding construct
  streaming_shutdown_hangs law {buffer = buffer} tasks st some_tasks n =
      let empty = fresh-buffer st in
      let (s, e, _, _, size, flush, few) =
        streaming_leaves_counter tbb law (λ _. 0) (construct 0 [] [] []) tasks st some_tasks n refl
          (rw empty (omega arith)) in
      (s, e, shutdown_waits s flush ∙ (ground arith), λ h. few (rw empty (omega arith)))

  -- With any other strategy than the streamed ones a fresh wrapper runs each of fewer than 2^64
  -- tasks once, and the shutdown that follows returns.
  bulk_shutdown_returns :
      (law : IsTbb tbb) (w : T → ℕ) (tasks : List T) (strategy : Strategy)
      → IsBulk strategy
      → length tasks < size_mod
      → (s : Wrapper T) × (try_enqueue tbb (construct 0 [] [] []) tasks strategy ≡ some (s, true))
        × (shutdown_process_remaining_tasks tbb s ≡ some (returns s))
        × (weigh w s.ran ≡ weigh w tasks)
  unfolding construct
  bulk_shutdown_returns law w tasks strategy b n =
      let (s, e, k, size, _, _, flush) =
        bulk_runs_each_once tbb law w (construct 0 [] [] []) tasks strategy b refl (omega arith)
          n in
      (s, e, shutdown_waits s flush ∙ (ground arith), omega (arith, k))

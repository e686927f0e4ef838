-- ===== src/Pool/Race.antt =====
-- What two threads can do to an accepted task (ThreadPoolBenchmark/ThreadPool.h, `tryEnqueueTask`
-- beside the shutdowns).
use thread_pool_backtesting.Base.{◌≡◌, refl, true, false, none, List, [], ◌∷◌, ℕ_discrete, dec_lt}
use thread_pool_backtesting.Queue.{
  wait_pop, push, try_push_locked, try_push_open, empty, shut_down, clear, new,
}
use thread_pool_backtesting.Pool.{
  ThreadPool, Outcome, returned, outside, construct, work, start_worker, begin, continue,
  try_enqueue_task, shutdown_immediately, shutdown_process_remaining_tasks,
}
use thread_pool_backtesting.Pool.System.{Reach}
use thread_pool_backtesting.Pool.Schedule.{Turn, worker, call, go_on, Reached, run, fresh}

module _ {T : Type 0} where
  -- Between the two locked pieces of a `tryPush` another thread drains the pool and shuts it down.
  abbrev pub overtaken : T → List (Turn T)
  overtaken t =
      call 0 (try_enqueue_task t false)
      ∷ go_on 0
      ∷ call 1 shutdown_process_remaining_tasks
      ∷ go_on 1
      ∷ go_on 1
      ∷ worker 0 returned
      ∷ worker 0 returned
      ∷ go_on 1
      ∷ go_on 1
      ∷ go_on 0
      ∷ []

  late : T → Reached T 1 0 2
  late t = run (fresh T 1 0 2) (overtaken t)

  -- tryPush tests _shutdown before it takes the mutex, so a task can be accepted by a pool that
  -- has been shut down: both calls have returned, the task is in the queue, it has not run, and no
  -- worker is left to run it.
  pub late_push_never_runs :
      (t : T)
      → (p : ThreadPool T) × Reach 1 0 2 p
        × (p.callers 0 ≡ outside)
        × (p.callers 1 ≡ outside)
        × (p.active ≡ false)
        × (p.log.accepted ≡ t ∷ [])
        × (p.task_queue.queue ≡ t ∷ [])
        × (p.log.finished ≡ [])
        × (p.log.discarded ≡ [])
        × ((o : Outcome) → work p 0 o ≡ none)
  unfolding late run fresh construct work continue begin start_worker wait_pop push try_push_locked
      try_push_open empty shut_down clear new ℕ_discrete dec_lt
  late_push_never_runs t =
      ((late t).pool, (late t).reach, refl, refl, refl, refl, refl, refl, refl, λ o. refl)

  abbrev pub interrupted : T → List (Turn T)
  interrupted t =
      call 0 (try_enqueue_task t true)
      ∷ call 1 shutdown_immediately
      ∷ go_on 1
      ∷ go_on 1
      ∷ go_on 0
      ∷ []

  cut_off : T → Reached T 1 0 2
  cut_off t = run (fresh T 1 0 2) (interrupted t)

  -- push returns nothing, so tryEnqueueTask reports a task as accepted that the closed queue
  -- refused: it is nowhere in the pool.
  refused_push_accepted :
      (t : T)
      → (p : ThreadPool T) × Reach 1 0 2 p
        × (p.log.accepted ≡ t ∷ [])
        × (p.log.dropped ≡ t ∷ [])
        × (p.log.entered ≡ [])
        × (p.log.discarded ≡ [])
  unfolding cut_off run fresh construct work continue begin start_worker wait_pop push
      try_push_locked try_push_open empty shut_down clear new ℕ_discrete dec_lt
  refused_push_accepted t = ((cut_off t).pool, (cut_off t).reach, refl, refl, refl, refl)

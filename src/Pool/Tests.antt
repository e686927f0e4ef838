-- ===== src/Pool/Tests.antt =====
-- Concrete runs of ThreadPoolBenchmark/ThreadPool.h, and its theorems at the states that they reach.
-- A task is a number.
use thread_pool_backtesting.Base.{
  ℕ, ◌+◌, ◌≤◌, ◌≡◌, ◌<◌, refl, true, false, none, some, List, [], ◌∷◌, arith, dec_lt, ℕ_discrete,
}
use thread_pool_backtesting.Queue.{
  wait_pop, push, try_push_locked, try_push_open, empty, shut_down, clear, new,
}
use thread_pool_backtesting.Pool.{
  ThreadPool, Outcome, returned, std_exception, outside, construct, work, start_worker, begin,
  continue, try_enqueue_task, shutdown_process_remaining_tasks,
}
use thread_pool_backtesting.Pool.System.{Reach, start, next, works}
use thread_pool_backtesting.Pool.Schedule.{Turn, worker, call, go_on, Reached, run, fresh}
use thread_pool_backtesting.Pool.Conservation.{Conserved, Reach-Conserved}
use thread_pool_backtesting.Pool.Protocol.{Orderly, Reach-Orderly}
use thread_pool_backtesting.Pool.Counters.{Counted, Reach-Counted}
use thread_pool_backtesting.Pool.Solo.Completes.{Completed, solo_completes}
use thread_pool_backtesting.Pool.Drain.{measure, none_left, one_more, Runs-bounded}
use thread_pool_backtesting.Pool.Affinity.{cores_distinct}
use thread_pool_backtesting.Pool.Race.{late_push_never_runs}

-- Two tasks, the second of which throws, and a shutdown that waits for them.
abbrev session : List (Turn ℕ)
session =
    call 0 (try_enqueue_task 5 false)
    ∷ go_on 0
    ∷ go_on 0
    ∷ worker 0 returned
    ∷ call 0 (try_enqueue_task 6 true)
    ∷ go_on 0
    ∷ worker 0 returned
    ∷ worker 0 returned
    ∷ call 0 shutdown_process_remaining_tasks
    ∷ go_on 0
    ∷ worker 0 returned
    ∷ worker 0 returned
    ∷ go_on 0
    ∷ go_on 0
    ∷ worker 0 std_exception
    ∷ worker 0 returned
    ∷ worker 0 returned
    ∷ go_on 0
    ∷ go_on 0
    ∷ []

abbrev used : Reached ℕ 1 0 1
used = run (fresh ℕ 1 0 1) session

session_ran :
    (used.pool.log.finished ≡ (5, returned) ∷ (6, std_exception) ∷ [])
    × (used.pool.tasks_completed 0 ≡ 2)
unfolding run fresh construct work continue begin start_worker wait_pop push try_push_locked
    try_push_open empty shut_down clear new ℕ_discrete dec_lt
session_ran = (refl, refl)

Reach-Conserved_example : Conserved (λ t. t) 1 used.pool
Reach-Conserved_example = Reach-Conserved (λ t. t) used.reach

Reach-Orderly_example : Orderly used.pool
Reach-Orderly_example = Reach-Orderly used.reach

Reach-Counted_example : Counted 1 1 used.pool
Reach-Counted_example = Reach-Counted used.reach

solo_completes_example : Completed (λ t. t) 1 used.pool
unfolding run fresh construct work continue begin start_worker wait_pop push try_push_locked
    try_push_open empty shut_down clear new ℕ_discrete dec_lt
solo_completes_example = solo_completes (λ t. t) used.reach refl refl (omega arith)

-- A closed pool of one worker with one task in its queue.
abbrev closed : ThreadPool ℕ
closed = record (construct {T = ℕ} false "pool" 1 0 false) {
  task_queue = record (new 0) { queue = 3 ∷ []; size = 1; shutdown = true };
  active = false;
}

Runs-bounded_example : 1 + measure 1 (start_worker closed 0) ≤ measure 1 closed
unfolding work construct new start_worker
Runs-bounded_example =
    Runs-bounded {n = 1} {k = 1} {p = closed} {q = start_worker closed 0}
      (one_more 0 returned (omega arith) refl (none_left (start_worker closed 0)))

-- A pool whose storage happened to hold `true`, after its second worker has started.
abbrev pinned : Reach {T = ℕ} 2 0 1 (start_worker (construct true "pool" 2 0 false) 1)
unfolding work construct
pinned = next (start true false "pool") (works 1 returned (omega arith) refl)

late_push_never_runs_example :
    (p : ThreadPool ℕ) × Reach 1 0 2 p
    × (p.callers 0 ≡ outside)
    × (p.callers 1 ≡ outside)
    × (p.active ≡ false)
    × (p.log.accepted ≡ 9 ∷ [])
    × (p.task_queue.queue ≡ 9 ∷ [])
    × (p.log.finished ≡ [])
    × (p.log.discarded ≡ [])
    × ((o : Outcome) → work p 0 o ≡ none)
late_push_never_runs_example = late_push_never_runs 9

cores_distinct_example :
    (0 < 24)
    × ((start_worker (construct {T = ℕ} true "pool" 2 0 false) 1).core_of 0 ≡ some 0
        → ◌≡◌ {A = ℕ} 1 0)
unfolding construct start_worker work ℕ_discrete
cores_distinct_example = cores_distinct (omega arith) pinned 1 0 0 refl

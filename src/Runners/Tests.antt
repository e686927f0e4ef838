-- ===== src/Runners/Tests.antt =====
-- Concrete runs of the runners of ThreadPoolBenchmark/main.cpp, and their theorems at them. A task is a
-- number.
use thread_pool_backtesting.Base.{
  ap, false, ◌⊎◌, ◌≤◌, ◌*◌, ℕ, ◌+◌, ◌<◌, ◌≡◌, refl, some, List, [], ◌∷◌, arith, length, weigh,
  dec_lt, ℕ_discrete,
}
use thread_pool_backtesting.Queue.{
  wait_pop, push, try_push_locked, try_push_open, empty, shut_down, clear, new,
}
use thread_pool_backtesting.Tbb.{auto_partitioner, sequential, sequential-IsTbb}
use thread_pool_backtesting.Pool.{
  Request, try_enqueue_task, ThreadPool, outside, exited, construct, work, start_worker, begin,
  continue,
}
use thread_pool_backtesting.Pool.Conservation.{ran}
use thread_pool_backtesting.Wrapper.{Wrapper}
use thread_pool_backtesting.Runners.{main_thread_pool}
use thread_pool_backtesting.Ranges.Orders.{ascending}
use thread_pool_backtesting.Runners.Session.{Session, Move, main_begins}
use thread_pool_backtesting.Runners.Session.Ends.{Counted, fresh, changed, session_ends}
use thread_pool_backtesting.Runners.Session.Result.{session_runs_each_once}
use thread_pool_backtesting.Runners.Play.{Turn, worker, main_thread, Played, play, open_session}
use thread_pool_backtesting.Runners.Batched.{collect, onetbb_batched, executed}
use thread_pool_backtesting.Runners.Batched.Collected.{onetbb_batched_runs_each_once}
use thread_pool_backtesting.Runners.Parallel.{
  Loops, IsLoops, onetbb_task_group_fusion, run_parallel, parallel_runs_each_once,
}

-- Two tasks, one worker, and a shutdown.
abbrev turns : List Turn
turns =
    worker 0
    ∷ main_thread
    ∷ main_thread
    ∷ main_thread
    ∷ worker 0
    ∷ main_thread
    ∷ main_thread
    ∷ main_thread
    ∷ worker 0
    ∷ worker 0
    ∷ main_thread
    ∷ worker 0
    ∷ main_thread
    ∷ main_thread
    ∷ worker 0
    ∷ worker 0
    ∷ worker 0
    ∷ main_thread
    ∷ main_thread
    ∷ main_thread
    ∷ []

abbrev two : List ℕ
two = 5 ∷ 6 ∷ []

abbrev played : Played ℕ 1 (main_thread_pool two)
played = play (open_session 1 (main_thread_pool two)) turns

played_ran : played.pool.log.left ≡ two
unfolding play open_session main_thread_pool construct work continue begin start_worker wait_pop
    push try_push_locked try_push_open empty shut_down clear new ℕ_discrete dec_lt
played_ran = refl

session_runs_each_once_example :
    (weigh (ran (λ t. t)) played.pool.log.finished ≡ 11)
    × (played.pool.log.left ≡ two)
    × (played.pool.task_queue.queue ≡ [])
    × ((i : ℕ) → i < 1 → played.pool.workers i ≡ exited)
unfolding play open_session main_thread_pool construct work continue begin start_worker wait_pop
    push try_push_locked try_push_open empty shut_down clear new ℕ_discrete dec_lt
session_runs_each_once_example =
    session_runs_each_once {n = 1} {tasks = two} (λ t. t) played.session refl (omega arith)

-- Three tasks in batches of two.
abbrev three : List ℕ
three = 5 ∷ 6 ∷ 7 ∷ []

abbrev batched : Played (List ℕ) 1 (onetbb_batched 2 three)
batched = play (open_session 1 (onetbb_batched 2 three)) turns

onetbb_batched_runs_each_once_example :
    (weigh (ran (executed sequential (λ t. t))) batched.pool.log.finished ≡ 18)
    × ((i : ℕ) → i < 1 → batched.pool.workers i ≡ exited)
unfolding play open_session main_thread_pool construct work continue begin start_worker wait_pop
    push try_push_locked try_push_open empty shut_down clear new ℕ_discrete dec_lt collect
    onetbb_batched
onetbb_batched_runs_each_once_example =
    onetbb_batched_runs_each_once sequential sequential-IsTbb (λ t. t) {n = 1} 2 three
      batched.session refl (omega arith)

-- Loops that one thread runs.
abbrev pub loops : Loops
loops = record {
  split = λ grain n. sequential.parallel_for auto_partitioner n;
  order = sequential.task_group;
}

pub loops-IsLoops : IsLoops loops
loops-IsLoops = record {
  split_within = λ grain n. sequential-IsTbb.ranges_within auto_partitioner n;
  split_covers = λ grain n w. sequential-IsTbb.ranges_cover auto_partitioner n w;
  order_below = sequential-IsTbb.group_within;
  order_covers = sequential-IsTbb.group_covers;
}

parallel_runs_each_once_example :
    (done : List ℕ) × (run_parallel loops onetbb_task_group_fusion three ≡ some done)
    × (weigh (λ t. t) done ≡ 18)
parallel_runs_each_once_example =
    parallel_runs_each_once loops loops-IsLoops (λ t. t) onetbb_task_group_fusion three
      (omega arith)

-- A thread whose streamed buffer holds a task, and nothing has run.
abbrev thread : Wrapper ℕ
thread = record {
  queue_size = 0;
  max_queue_size = 0;
  streamed_buffer = 9 ∷ [];
  streamed_affinity_buffer = [];
  flush_buffer = [];
  ran = [];
}

-- The first call is begun.
begun :
    Counted 1
      (main_thread_pool two)
      1
      (begin (construct false "pool" 1 0 false) 0 (try_enqueue_task 5 false))
      (main_thread_pool (6 ∷ []))
unfolding main_thread_pool construct
begun =
    changed (fresh false false "pool") (main_begins (try_enqueue_task 5 false) refl refl refl)
      (λ same. let shorter = ap length same.1 in absurd (omega (arith, shorter)))

session_ends_example :
    let p = begin (construct {T = ℕ} false "pool" 1 0 false) 0 (try_enqueue_task 5 false) in
    let rest = main_thread_pool {T = ℕ} (6 ∷ []) in
    (1 ≤ (1 + 6) * (2 + 2) + 2 * 1)
    × (((rest ≡ []) × (p.callers 0 ≡ outside))
        ⊎ ((q : ThreadPool ℕ) × (rest' : List (Request ℕ)) × Move p rest q rest'
            × (¬ ((q ≡ p) × (rest' ≡ rest)))))
session_ends_example = session_ends 1 two (omega arith) (omega arith) begun

-- Two tasks by their indices.
abbrev pub indexed : Played ℕ 1 (main_thread_pool (ascending 0 2))
indexed = play (open_session 1 (main_thread_pool (ascending 0 2))) turns

pub indexed_session : Session 1 (main_thread_pool (ascending 0 2)) indexed.pool []
unfolding play open_session main_thread_pool construct work continue begin start_worker wait_pop
    push try_push_locked try_push_open empty shut_down clear new ℕ_discrete dec_lt ascending
indexed_session = indexed.session

pub indexed_out : indexed.pool.callers 0 ≡ outside
unfolding play open_session main_thread_pool construct work continue begin start_worker wait_pop
    push try_push_locked try_push_open empty shut_down clear new ℕ_discrete dec_lt ascending
indexed_out = refl

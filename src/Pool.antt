-- ===== src/Pool.antt =====
-- ThreadPoolBenchmark/ThreadPool.h: the pool's state, its constructor, the worker's loop and the
-- calls, cut into the pieces that one thread does without letting others in.
-- A thread that waits (in `waitPop`, in a bounded `push`, in `join`) has no move until what it waits
-- for holds; how the queue's sleepers are woken is the matter of Queue.Wakeup.
pub mod System
pub mod Conservation
pub mod Protocol
pub mod Counters
pub mod Solo
pub mod Drain
pub mod Affinity
pub mod Schedule
pub mod Race
mod Tests
use Prim.Native.String.{String}
use thread_pool_backtesting.Base.{
  ℕ, suc, ◌+◌, ◌%◌, Bool, true, false, Option, none, some, List, [], ◌∷◌, ◌++◌, ltb, ◌==◌,
  if◌then◌else◌, update, size_mod,
}
use thread_pool_backtesting.Queue.{
  ThreadSafeQueue, Attempt, blocked, returns, new, try_push_open, try_push_locked, push, wait_pop,
  empty, shut_down, clear,
}

-- How a task ends. `workerThread` catches both kinds of exception.
pub data Outcome : Type 0 where
  returned std_exception other_exception : Outcome

-- `numLogicalCores`
abbrev pub num_logical_cores : ℕ
num_logical_cores = 24

-- Where a worker stands in `workerThread`.
pub data WorkerPc (T : Type 0) : Type 0 where
  starting : WorkerPc T
  waiting : WorkerPc T
  running : T → WorkerPc T
  counting : WorkerPc T
  exited : WorkerPc T

-- Where a thread that uses the pool stands in the call that it is making.
pub data CallerPc (T : Type 0) : Type 0 where
  outside : CallerPc T
  -- `tryEnqueueTask` behind its test of `active`
  admitted : T → (block_if_queue_full : Bool) → CallerPc T
  -- `tryPush` behind its test of `_shutdown`
  unlocked : T → CallerPc T
  -- the two shutdowns, behind the exchange that they won
  clearing : CallerPc T
  draining : CallerPc T
  closing : CallerPc T
  joining : ℕ → CallerPc T

pub data Request (T : Type 0) : Type 0 where
  try_enqueue_task : T → (block_if_queue_full : Bool) → Request T
  shutdown_immediately : Request T
  shutdown_process_remaining_tasks : Request T

-- The history, which the program does not keep: the tasks that `tryEnqueueTask` reported as accepted,
-- those that went into the queue and came out of it, each in order, those that ran, those that a
-- `clear` took, and those that `push` let go although the call reported success.
pub record Log (T : Type 0) : Type 0 where
  pub accepted : List T
  pub entered : List T
  pub left : List T
  pub finished : List (T × Outcome)
  pub discarded : List T
  pub dropped : List T
  pub immediate : Bool

pub record ThreadPool (T : Type 0) : Type 0 where
  pub task_queue : ThreadSafeQueue T
  pub workers : ℕ → WorkerPc T
  pub active : Bool
  pub thread_pool_name : String
  pub enable_affinity : Bool
  pub next_core_id : ℕ
  pub current_threads : ℕ
  pub tasks_completed : ℕ → ℕ
  pub core_of : ℕ → Option ℕ
  pub callers : ℕ → CallerPc T
  pub log : Log T

abbrev no_history : {T : Type 0} → Log T
no_history = record {
  accepted = [];
  entered = [];
  left = [];
  finished = [];
  discarded = [];
  dropped = [];
  immediate = false;
}

module _ {T : Type 0} where
  -- The constructor. Its parameter is spelled `enableAfinity`, so `enableAffinity(enableAffinity)`
  -- copies what the member's storage held before: `storage`.
  unfoldable pub construct :
      (storage : Bool)
      → String
      → (num_threads max_queue_size : ℕ) → (enable_afinity : Bool) → ThreadPool T
  construct storage name num_threads max_queue_size enable_afinity = record {
    task_queue = new max_queue_size;
    workers = λ _. starting;
    active = true;
    thread_pool_name = name;
    enable_affinity = storage;
    next_core_id = 0;
    current_threads = num_threads;
    tasks_completed = λ _. 0;
    core_of = λ _. none;
    callers = λ _. outside;
    log = no_history;
  }

  -- The head of `workerThread`: a pinned worker takes the next core of a round.
  unfoldable pub start_worker : ThreadPool T → ℕ → ThreadPool T
  start_worker p i =
      if p.enable_affinity
      then record p {
        workers = update p.workers i waiting;
        next_core_id = (p.next_core_id + 1) % size_mod;
        core_of = update p.core_of i (some (p.next_core_id % num_logical_cores));
      }
      else record p { workers = update p.workers i waiting }

  -- The loop's test, `taskQueue.waitPop(task)`.
  abbrev take_task :
      ThreadPool T → ℕ → ThreadSafeQueue T × Attempt (Option T) → Option (ThreadPool T)
  take_task p i (q, blocked) = none
  take_task p i (q, returns none) =
      some (record p { task_queue = q; workers = update p.workers i exited })
  take_task p i (q, returns (some t)) = some (record p {
    task_queue = q;
    workers = update p.workers i (running t);
    log = record (p.log) { left = p.log.left ++ t ∷ [] };
  })

  -- The loop's body, `task()` under its two handlers.
  abbrev run_task : ThreadPool T → ℕ → T → Outcome → ThreadPool T
  run_task p i t outcome = record p {
    workers = update p.workers i counting;
    log = record (p.log) { finished = p.log.finished ++ (t, outcome) ∷ [] };
  }

  -- `tasksCompleted[std::this_thread::get_id()]++`
  abbrev count_task : ThreadPool T → ℕ → ThreadPool T
  count_task p i = record p {
    workers = update p.workers i waiting;
    tasks_completed = update p.tasks_completed i ((p.tasks_completed i + 1) % size_mod);
  }

  abbrev work_at : ThreadPool T → ℕ → Outcome → WorkerPc T → Option (ThreadPool T)
  work_at p i outcome starting = some (start_worker p i)
  work_at p i outcome waiting = take_task p i (wait_pop p.task_queue)
  work_at p i outcome (running t) = some (run_task p i t outcome)
  work_at p i outcome counting = some (count_task p i)
  work_at p i outcome exited = none

  -- The next piece of `workerThread` in worker `i`, if it has one; `outcome` is how the task ends, if
  -- that piece is a task.
  unfoldable pub work : ThreadPool T → ℕ → Outcome → Option (ThreadPool T)
  work p i outcome = work_at p i outcome (p.workers i)

  abbrev pub go : ThreadPool T → ℕ → CallerPc T → ThreadPool T
  go p j pc = record p { callers = update p.callers j pc }

  -- The first piece of a call, up to the first shared access.
  unfoldable pub begin : ThreadPool T → ℕ → Request T → ThreadPool T
  begin p j (try_enqueue_task t block) = if p.active then go p j (admitted t block) else p
  begin p j shutdown_immediately =
      if p.active
      then go (record p { active = false; log = record (p.log) { immediate = true } }) j clearing
      else p
  begin p j shutdown_process_remaining_tasks =
      if p.active then go (record p { active = false }) j draining else p

  -- The blocking branch. `push` returns nothing, so the call reports success in either case.
  abbrev pushed : ThreadPool T → ℕ → T → ThreadSafeQueue T × Attempt Bool → Option (ThreadPool T)
  pushed p j t (q, blocked) = none
  pushed p j t (q, returns true) = some (record (go p j outside) {
    task_queue = q;
    log = record (p.log) { accepted = p.log.accepted ++ t ∷ []; entered = p.log.entered ++ t ∷ [] };
  })
  pushed p j t (q, returns false) = some (record (go p j outside) {
    task_queue = q;
    log = record (p.log) { accepted = p.log.accepted ++ t ∷ []; dropped = p.log.dropped ++ t ∷ [] };
  })

  abbrev try_pushed : ThreadPool T → ℕ → T → ThreadSafeQueue T × Bool → ThreadPool T
  try_pushed p j t (q, true) = record (go p j outside) {
    task_queue = q;
    log = record (p.log) { accepted = p.log.accepted ++ t ∷ []; entered = p.log.entered ++ t ∷ [] };
  }
  try_pushed p j t (q, false) = record (go p j outside) { task_queue = q }

  -- `for (std::thread& worker : workers) worker.join()`, one worker at a time.
  abbrev join_next : ThreadPool T → ℕ → ℕ → WorkerPc T → Option (ThreadPool T)
  join_next p j k exited = some (go p j (joining (suc k)))
  join_next p j k _ = none

  abbrev continue_at : ThreadPool T → ℕ → CallerPc T → Option (ThreadPool T)
  continue_at p j outside = none
  continue_at p j (admitted t true) = pushed p j t (push p.task_queue t)
  continue_at p j (admitted t false) =
      some (if try_push_open p.task_queue then go p j (unlocked t) else go p j outside)
  continue_at p j (unlocked t) = some (try_pushed p j t (try_push_locked p.task_queue t))
  continue_at p j clearing = some (record (go p j closing) {
    task_queue = clear p.task_queue;
    log = record (p.log) {
      left = p.log.left ++ p.task_queue.queue;
      discarded = p.log.discarded ++ p.task_queue.queue;
    };
  })
  continue_at p j draining = some (if empty p.task_queue then go p j closing else p)
  continue_at p j closing =
      some (record (go p j (joining 0)) { task_queue = shut_down p.task_queue })
  continue_at p j (joining k) =
      if ltb k p.current_threads then join_next p j k (p.workers k) else some (go p j outside)

  -- The next piece of the call that caller `j` is in, if it can go on.
  unfoldable pub continue : ThreadPool T → ℕ → Option (ThreadPool T)
  continue p j = continue_at p j (p.callers j)

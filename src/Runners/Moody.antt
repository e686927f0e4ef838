-- ===== src/Runners/Moody.antt =====
-- moody_ConcurrentQueue_ThreadPool of ThreadPoolBenchmark/main.cpp: workers that poll a concurrent queue
-- until all tasks are done. The queue, moodycamel::ConcurrentQueue, is outside the model: try_dequeue
-- may give any element that is in it, and may find none. A task does not throw; nothing here catches.
pub mod Joining
pub mod Kept
pub mod Settled
pub mod Flagged
pub mod Nearer
pub mod Returns
pub mod Ends
mod Tests
use thread_pool_backtesting.Base.{
  ℕ, zero, suc, ◌+◌, ◌-◌, ◌%◌, ◌<◌, ◌≡◌, Bool, true, false, Option, none, some, List, [], ◌∷◌, ◌++◌,
  length, ltb, if◌then◌else◌, update, size_mod,
}
use thread_pool_backtesting.Ranges.{◌>>=◌}

-- Where a worker stands in its loop.
pub data MoodyPc (T : Type 0) : Type 0 where
  -- at `!done`, and at `remainingTasks.load() > 0` behind it
  testing_done : MoodyPc T
  testing_remaining : MoodyPc T
  polling : MoodyPc T
  executing : T → MoodyPc T
  subtracting : MoodyPc T
  left_loop : MoodyPc T

-- Where the main thread stands.
pub data MainPc (T : Type 0) : Type 0 where
  enqueuing : List T → MainPc T
  awaiting : MainPc T
  setting_done : MainPc T
  joining_from : ℕ → MainPc T
  back : MainPc T

-- `ran` is a history that the program does not keep.
pub record Moody (T : Type 0) : Type 0 where
  pub queue : List T
  pub done : Bool
  pub remaining_tasks : ℕ
  pub workers : ℕ → MoodyPc T
  pub main_pc : MainPc T
  pub ran : List T

module _ {T : Type 0} where
  abbrev pub moody_start : List T → Moody T
  moody_start tasks = record {
    queue = [];
    done = false;
    remaining_tasks = length tasks % size_mod;
    workers = λ _. testing_done;
    main_pc = enqueuing tasks;
    ran = [];
  }

  -- The element at a place of the queue, and the others.
  unfoldable pub take_out : ℕ → List T → Option (T × List T)
  take_out k [] = none
  take_out zero (t ∷ ts) = some (t, ts)
  take_out (suc k) (t ∷ ts) = do (u, rest) ← take_out k ts; some (u, t ∷ rest)

  abbrev dequeued : Moody T → ℕ → Option (T × List T) → Option (Moody T)
  dequeued s i none = none
  dequeued s i (some (t, rest)) =
      some (record s { queue = rest; workers = update s.workers i (executing t) })

  abbrev poll : Moody T → ℕ → Option ℕ → Option (Moody T)
  poll s i none = some (record s { workers = update s.workers i testing_done })
  poll s i (some k) = dequeued s i (take_out k s.queue)

  abbrev worker_at : Moody T → ℕ → Option ℕ → MoodyPc T → Option (Moody T)
  worker_at s i found testing_done =
      some
        (record s { workers = update s.workers i (if s.done then testing_remaining else polling) })
  worker_at s i found testing_remaining = some (record s {
    workers = update s.workers i (if ltb 0 s.remaining_tasks then polling else left_loop);
  })
  worker_at s i found polling = poll s i found
  worker_at s i found (executing t) =
      some (record s { ran = s.ran ++ t ∷ []; workers = update s.workers i subtracting })
  worker_at s i found subtracting = some (record s {
    remaining_tasks = (s.remaining_tasks + size_mod - 1) % size_mod;
    workers = update s.workers i polling;
  })
  worker_at s i found left_loop = none

  -- The next piece of worker `i`; `found` is the place of what try_dequeue gives, or that it finds none.
  unfoldable pub moody_work : Moody T → ℕ → Option ℕ → Option (Moody T)
  moody_work s i found = worker_at s i found (s.workers i)

  abbrev join_at : Moody T → ℕ → MoodyPc T → Option (Moody T)
  join_at s k left_loop = some (record s { main_pc = joining_from (suc k) })
  join_at s k _ = none

  abbrev main_at : ℕ → Moody T → MainPc T → Option (Moody T)
  main_at n s (enqueuing []) = some (record s { main_pc = awaiting })
  main_at n s (enqueuing (t ∷ ts)) =
      some (record s { queue = s.queue ++ t ∷ []; main_pc = enqueuing ts })
  main_at n s awaiting =
      some (if ltb 0 s.remaining_tasks then s else record s { main_pc = setting_done })
  main_at n s setting_done = some (record s { done = true; main_pc = joining_from 0 })
  main_at n s (joining_from k) =
      if ltb k n then join_at s k (s.workers k) else some (record s { main_pc = back })
  main_at n s back = none

  -- The next piece of the main thread, with `n` workers.
  unfoldable pub moody_main : ℕ → Moody T → Option (Moody T)
  moody_main n s = main_at n s s.main_pc

  -- The states that the runner and its workers can get to.
  pub data MoodyReach (n : ℕ) (tasks : List T) : Moody T → Type 0 where
    begun : MoodyReach n tasks (moody_start tasks)
    worker_step :
        {s s' : Moody T} (i : ℕ) (found : Option ℕ)
        → MoodyReach n tasks s
        → i < n
        → moody_work s i found ≡ some s'
        → MoodyReach n tasks s'
    main_step :
        {s s' : Moody T} → MoodyReach n tasks s → moody_main n s ≡ some s' → MoodyReach n tasks s'

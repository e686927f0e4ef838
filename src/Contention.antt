-- ===== src/Contention.antt =====
-- ThreadPoolBenchmark/HighContention.h: tasks that meet at one counter, one mutex, an array of counters
-- or one flag.
pub mod Counts
pub mod Flag
pub mod Ends
mod Tests
use thread_pool_backtesting.Base.{
  ℕ, zero, suc, ◌+◌, ◌*◌, ◌%◌, ◌^◌, ◌<◌, ◌≡◌, min, Bool, true, false, Option, none, some, List, [],
  ◌∷◌, ltb, if◌then◌else◌, update, size_mod,
}
use thread_pool_backtesting.Ranges.{◌>>=◌}
use thread_pool_backtesting.Workloads.{add_int}

-- The tasks of a test, run by their indices in the order `order`. The increments are atomic, and those
-- of the mutex test are under the mutex.
module _ {S : Type 0} (task : ℕ → S → Option S) where
  unfoldable pub run_tasks : List ℕ → S → Option S
  run_tasks [] s = some s
  run_tasks (i ∷ order) s = do s' ← task i s; run_tasks order s'

-- `counter.fetch_add(1)` on a `size_t`
abbrev pub increment_counter : ℕ → ℕ → Option ℕ
increment_counter i counter = some ((counter + 1) % size_mod)

-- `shared++` on an `int`
abbrev pub increment_shared : ℕ → ℕ → Option ℕ
increment_shared i shared = add_int shared 1

-- `data.slots[i % 64].fetch_add(1)`
abbrev pub increment_slot : ℕ → (ℕ → ℕ) → Option (ℕ → ℕ)
increment_slot i slots = some (update slots (i % 64) ((slots (i % 64) + 1) % size_mod))

-- The tests, for a pool that runs `num_tasks` tasks in the order `order num_tasks`.
module _ (order : ℕ → List ℕ) where
  unfoldable pub test_atomic_increment : (num_tasks : ℕ) → Option ℕ
  test_atomic_increment num_tasks = run_tasks increment_counter (order num_tasks) 0

  unfoldable pub test_mutex_locking : (num_tasks : ℕ) → Option ℕ
  test_mutex_locking num_tasks = run_tasks increment_shared (order num_tasks) 0

  unfoldable pub test_false_sharing : (num_tasks : ℕ) → Option (ℕ → ℕ)
  test_false_sharing num_tasks = run_tasks increment_slot (order num_tasks) (λ _. 0)

-- What a task does while the flag is taken.
pub data Waiting : Type 0 where
  yields spins backs_off : Waiting

-- Where a task stands: it tries to take the flag, is in its critical section, or is done.
pub data TaskPc : Type 0 where
  trying : (backoff : ℕ) → TaskPc
  critical : TaskPc
  finished : TaskPc

pub record Contended : Type 0 where
  pub flag : Bool
  pub tasks : ℕ → TaskPc

abbrev pub uncontended : Contended
uncontended = record { flag = false; tasks = λ _. trying 1 }

-- `backoff = std::min(backoff * 2, 1024)`, where the test backs off.
abbrev pub next_backoff : Waiting → ℕ → ℕ
next_backoff yields backoff = backoff
next_backoff spins backoff = backoff
next_backoff backs_off backoff = min (backoff * 2) 1024

abbrev move_at : Waiting → Contended → ℕ → TaskPc → Option Contended
move_at waiting s i (trying backoff) = some (
    if s.flag
    then record s { tasks = update s.tasks i (trying (next_backoff waiting backoff)) }
    else record s { flag = true; tasks = update s.tasks i critical })
move_at waiting s i critical = some (record s { flag = false; tasks = update s.tasks i finished })
move_at waiting s i finished = none

-- The next piece of task `i`: an exchange of the flag with the wait after it, or the critical section
-- with the store that ends it.
unfoldable pub move : Waiting → Contended → ℕ → Option Contended
move waiting s i = move_at waiting s i (s.tasks i)

-- The states that `n` tasks can bring about.
pub data Reach (waiting : Waiting) (n : ℕ) : Contended → Type 0 where
  start : Reach waiting n uncontended
  next :
      {s s' : Contended} (i : ℕ)
      → Reach waiting n s
      → i < n
      → move waiting s i ≡ some s'
      → Reach waiting n s'

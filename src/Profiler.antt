-- ===== src/Profiler.antt =====
-- ThreadPoolBenchmark/ThreadProfiler.h, with ENABLE_THREAD_PROFILER defined: the counters and the
-- rolling buffer of snapshots. Times are nanoseconds of the steady clock. Logger has
-- the logger's thread and the files.
pub mod Window
pub mod Logger
mod Tests
use thread_pool_backtesting.Base.{
  ℕ, zero, suc, ◌+◌, ◌-◌, ◌%◌, List, [], ◌∷◌, ◌++◌, length, ltb, ◌==◌, if◌then◌else◌, size_mod,
}
use thread_pool_backtesting.Harness.Doubles.{Double}

pub record Snapshot (D : Type 0) : Type 0 where
  pub time : ℕ
  pub thread_count : ℕ
  pub queue_size : ℕ
  pub avg_thread_count : D
  pub avg_queue_size : D

pub record ThreadProfiler (D : Type 0) : Type 0 where
  pub total_tasks_submitted : ℕ
  pub tasks_executed : ℕ
  pub snapshots : List (Snapshot D)
  pub last_snapshot_log : ℕ

-- 1000 ms both
abbrev pub snapshot_interval : ℕ
snapshot_interval = 1000000000

abbrev pub rolling_window : ℕ
rolling_window = 1000000000

module _ {D : Type 0} (d : Double D) where
  -- A profiler that was made at the time `now`.
  unfoldable pub new_profiler : ℕ → ThreadProfiler D
  new_profiler now = record {
    total_tasks_submitted = 0;
    tasks_executed = 0;
    snapshots = [];
    last_snapshot_log = now;
  }

  unfoldable pub increment_tasks_submitted : ThreadProfiler D → ThreadProfiler D
  increment_tasks_submitted p = record p {
    total_tasks_submitted = (p.total_tasks_submitted + 1) % size_mod;
  }

  unfoldable pub increment_tasks_executed : ThreadProfiler D → ThreadProfiler D
  increment_tasks_executed p = record p { tasks_executed = (p.tasks_executed + 1) % size_mod }

  -- The `while` loop that removes old snapshots from the front.
  unfoldable pub evict : ℕ → List (Snapshot D) → List (Snapshot D)
  evict now [] = []
  evict now (s ∷ snapshots) =
      let rest = evict now snapshots in
      if ltb rolling_window (now - s.time) then rest else s ∷ snapshots

  abbrev pub total_threads : ℕ → List (Snapshot D) → ℕ
  total_threads sum [] = sum
  total_threads sum (s ∷ snapshots) = total_threads ((sum + s.thread_count) % size_mod) snapshots

  abbrev pub total_queue : ℕ → List (Snapshot D) → ℕ
  total_queue sum [] = sum
  total_queue sum (s ∷ snapshots) = total_queue ((sum + s.queue_size) % size_mod) snapshots

  abbrev pub mean : ℕ → List (Snapshot D) → D
  mean total snapshots = d.over (d.of_nat total) (d.of_nat (length snapshots))

  -- `snapshots.back()` gets the averages.
  unfoldable pub backfill : D → D → List (Snapshot D) → List (Snapshot D)
  backfill avg_threads avg_queue [] = []
  backfill avg_threads avg_queue (s ∷ []) =
      record s { avg_thread_count = avg_threads; avg_queue_size = avg_queue } ∷ []
  backfill avg_threads avg_queue (s ∷ t ∷ snapshots) =
      s ∷ backfill avg_threads avg_queue (t ∷ snapshots)

  abbrev pub preliminary : (now thread_count queue_size : ℕ) → Snapshot D
  preliminary now thread_count queue_size = record {
    time = now;
    thread_count = thread_count;
    queue_size = queue_size;
    avg_thread_count = d.of_nat 0;
    avg_queue_size = d.of_nat 0;
  }

  unfoldable pub take_snapshot :
      ThreadProfiler D → (now thread_count queue_size : ℕ) → ThreadProfiler D
  take_snapshot p now thread_count queue_size =
      let kept = evict now (p.snapshots ++ preliminary now thread_count queue_size ∷ []) in
      if ltb (now - p.last_snapshot_log) snapshot_interval then p else record p {
        snapshots =
            backfill (mean (total_threads 0 kept) kept) (mean (total_queue 0 kept) kept) kept;
      }

  -- `computeRollingAverages`
  unfoldable pub compute_rolling_averages : ThreadProfiler D → D × D
  compute_rolling_averages p = if length p.snapshots == 0 then (d.of_nat 0, d.of_nat 0) else (
    mean (total_threads 0 p.snapshots) p.snapshots,
    mean (total_queue 0 p.snapshots) p.snapshots,
  )

  -- The snapshot that `writeSnapshot` writes at the time `now`.
  unfoldable pub latest : ℕ → List (Snapshot D) → Snapshot D
  latest now [] = preliminary now 0 0
  latest now (s ∷ []) = s
  latest now (s ∷ t ∷ snapshots) = latest now (t ∷ snapshots)

-- ===== src/LatencyTests.antt =====
-- ThreadPoolBenchmark/LatencyTests.h: how long after its making each task begins. `clock k` is what the
-- steady clock says, in nanoseconds, when it is read for the `k`-th time from 0: by the loop that makes the
-- tasks, and then by each task as it begins. The pool runs the tasks in the order `order`.
pub mod Runs
pub mod Means
mod Tests
use thread_pool_backtesting.Base.{
  ℕ, zero, suc, ◌+◌, ◌-◌, ◌%◌, Option, none, some, List, [], ◌∷◌, map, get_elem?, set, ltb, ◌==◌,
  if◌then◌else◌, size_mod,
}
use thread_pool_backtesting.Queue.{Attempt, blocked, returns}
use thread_pool_backtesting.Ranges.{◌>>=◌}
use thread_pool_backtesting.Workloads.{add_rounds, multiply_rows}
use thread_pool_backtesting.Contention.{run_tasks}
use thread_pool_backtesting.Harness.Doubles.{Double}
use thread_pool_backtesting.Harness.Latency.{no_stats, record_all, get_avg}

pub data LatencyTest : Type 0 where
  latency_noop latency_short_compute latency_mixed_spike : LatencyTest

-- What task `i` computes behind its look at the clock; `none` is an overflow of its `int`.
abbrev pub computed : LatencyTest → ℕ → Option ℕ
computed latency_noop i = some 0
computed latency_short_compute i = add_rounds 100 0 0
computed latency_mixed_spike i =
    if i % 2 == 0 then multiply_rows 1000 1000 0 0 else add_rounds 100 0 0

pub record Timing (D : Type 0) : Type 0 where
  pub enqueue : ℕ
  pub latency_ns : D

-- `ticks` is how often the clock has been read.
pub record Timings (D : Type 0) : Type 0 where
  pub timings : List (Timing D)
  pub completed : ℕ
  pub ticks : ℕ

module _ {D : Type 0} (d : Double D) (clock : ℕ → ℕ) where
  -- What the loop over `numTasks` leaves in `timings`, from task `i` on: the time of each task's making.
  unfoldable pub enqueue_all : (i count : ℕ) → List (Timing D)
  enqueue_all i zero = []
  enqueue_all i (suc count) =
      record { enqueue = clock i; latency_ns = d.of_nat 0 } ∷ enqueue_all (i + 1) count

  abbrev pub elapsed : (exec enqueue : ℕ) → D
  elapsed exec enqueue = d.of_nat (exec - enqueue)

  -- Task `i`.
  unfoldable pub latency_task : LatencyTest → ℕ → Timings D → Option (Timings D)
  latency_task test i s = do
    let exec = clock s.ticks
    timing ← get_elem? s.timings i
    x ← computed test i
    some (record {
      timings = set s.timings i (record timing { latency_ns = elapsed exec timing.enqueue });
      completed = (s.completed + 1) % size_mod;
      ticks = s.ticks + 1;
    })

  -- `while (completed.load() < numTasks) yield`, and then the mean over all timings. Nothing runs after
  -- the pool has returned, so a wait that does not end at once does not end.
  abbrev pub mean_of_timings : ℕ → Timings D → Attempt D
  mean_of_timings num_tasks s =
      if ltb s.completed num_tasks
      then blocked
      else returns (get_avg d (record_all d (no_stats d) (map (λ t. t.latency_ns) s.timings)))

  unfoldable pub test_latency :
      (order : ℕ → List ℕ) → LatencyTest → (num_tasks : ℕ) → Option (Attempt D)
  test_latency order test num_tasks = do
    let made : Timings D = record {
      timings = enqueue_all 0 num_tasks;
      completed = 0;
      ticks = num_tasks;
    }
    s ← run_tasks (latency_task test) (order num_tasks) made
    some (mean_of_timings num_tasks s)

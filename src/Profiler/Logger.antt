-- ===== src/Profiler/Logger.antt =====
-- The logger thread of ThreadPoolBenchmark/ThreadProfiler.h beside the threads that use the profiler, with
-- the two files. A piece of a thread is one shared access or one write; a file is the list of its lines,
-- without the time stamps. A line is on disk when the stream that writes it is flushed.
pub mod Rounds
pub mod Metrics
pub mod Crossing
pub mod Ends
mod Tests
use thread_pool_backtesting.Base.{
  ℕ, zero, suc, ◌+◌, ◌≡◌, Bool, true, false, Option, none, some, List, [], ◌∷◌, ◌++◌, if◌then◌else◌,
}
use thread_pool_backtesting.Harness.Doubles.{Double}
use thread_pool_backtesting.Profiler.{
  Snapshot, ThreadProfiler, new_profiler, increment_tasks_submitted, increment_tasks_executed,
  take_snapshot, latest,
}

pub data MetricsLine : Type 0 where
  -- `Metric,Value`
  metric_value : MetricsLine
  total_tasks_submitted_is : ℕ → MetricsLine
  tasks_executed_is : ℕ → MetricsLine

-- Where the logger stands in `loggerThreadFunc`.
pub data LoggerPc : Type 0 where
  testing_running : LoggerPc
  sleeping : LoggerPc
  writing_snapshot : LoggerPc
  -- in `writeMetrics`
  opening_metrics : LoggerPc
  writing_submitted : LoggerPc
  writing_executed : LoggerPc
  ended : LoggerPc

-- Where the thread that destroys the profiler stands in `~ThreadProfiler`, or that it has yet to come.
pub data OwnerPc : Type 0 where
  using joining_logger closing_files destroyed : OwnerPc

-- `snapshot_rows` are the lines of the snapshots' file below its header.
pub record Logged (D : Type 0) : Type 0 where
  pub profiler : ThreadProfiler D
  pub running : Bool
  pub logger : LoggerPc
  pub owner : OwnerPc
  pub snapshot_rows : List (Snapshot D)
  pub metrics_file : List MetricsLine

-- Who makes the next piece. The clock's time, and whether the metrics file can be opened, come from outside.
pub data Event : Type 0 where
  submits : Event
  executes : Event
  takes_snapshot : (now thread_count queue_size : ℕ) → Event
  logger_goes : (now : ℕ) → (opens : Bool) → Event
  owner_goes : Event

module _ {D : Type 0} (d : Double D) where
  -- The constructor. Its stream keeps the header of the metrics file in a buffer until it is closed.
  abbrev pub new_logged : (now : ℕ) → Logged D
  new_logged now = record {
    profiler = new_profiler d now;
    running = true;
    logger = testing_running;
    owner = using;
    snapshot_rows = [];
    metrics_file = [];
  }

  abbrev pub logger_at : Logged D → (now : ℕ) → (opens : Bool) → LoggerPc → Option (Logged D)
  logger_at s now opens testing_running =
      some (record s { logger = if s.running then sleeping else ended })
  logger_at s now opens sleeping = some (record s { logger = writing_snapshot })
  logger_at s now opens writing_snapshot = some (record s {
    snapshot_rows = s.snapshot_rows ++ latest d now s.profiler.snapshots ∷ [];
    logger = opening_metrics;
  })
  logger_at s now opens opening_metrics = some (
      if opens
      then record s { metrics_file = []; logger = writing_submitted }
      else record s { logger = testing_running })
  logger_at s now opens writing_submitted = some (record s {
    metrics_file = metric_value ∷ total_tasks_submitted_is s.profiler.total_tasks_submitted ∷ [];
    logger = writing_executed;
  })
  logger_at s now opens writing_executed = some (record s {
    metrics_file = s.metrics_file ++ tasks_executed_is s.profiler.tasks_executed ∷ [];
    logger = testing_running;
  })
  logger_at s now opens ended = none

  -- The constructor's stream writes its header over the start of the file.
  abbrev pub close_metrics : List MetricsLine → List MetricsLine
  close_metrics [] = metric_value ∷ []
  close_metrics (first ∷ lines) = metric_value ∷ lines

  abbrev join_at : Logged D → LoggerPc → Option (Logged D)
  join_at s ended = some (record s { owner = closing_files })
  join_at s _ = none

  abbrev owner_at : Logged D → OwnerPc → Option (Logged D)
  owner_at s using = some (record s { running = false; owner = joining_logger })
  owner_at s joining_logger = join_at s s.logger
  owner_at s closing_files =
      some (record s { metrics_file = close_metrics s.metrics_file; owner = destroyed })
  owner_at s destroyed = none

  -- A profiler is used until its destructor is called.
  abbrev pub while_used : Logged D → OwnerPc → ThreadProfiler D → Option (Logged D)
  while_used s using p = some (record s { profiler = p })
  while_used s _ p = none

  unfoldable pub log : Logged D → Event → Option (Logged D)
  unfolding increment_tasks_submitted increment_tasks_executed
  log s submits = while_used s s.owner (increment_tasks_submitted d s.profiler)
  log s executes = while_used s s.owner (increment_tasks_executed d s.profiler)
  log s (takes_snapshot now thread_count queue_size) =
      while_used s s.owner (take_snapshot d s.profiler now thread_count queue_size)
  log s (logger_goes now opens) = logger_at s now opens s.logger
  log s owner_goes = owner_at s s.owner

  -- The states that `steps` pieces can get to.
  pub data LogReach (now : ℕ) : (steps : ℕ) → Logged D → Type 0 where
    made : LogReach now zero (new_logged now)
    logs :
        {steps : ℕ} {s s' : Logged D} (e : Event)
        → LogReach now steps s
        → log s e ≡ some s'
        → LogReach now (suc steps) s'

-- ===== src/Profiler/Tests.antt =====
-- The theorems on ThreadPoolBenchmark/ThreadProfiler.h at a concrete profiler. A double is a whole
-- number here.
use thread_pool_backtesting.Base.{ℕ, suc, ◌-◌, ◌≡◌, [], ◌∷◌, arith, length}
use thread_pool_backtesting.Harness.Tests.{whole}
use thread_pool_backtesting.Profiler.{
  ThreadProfiler, rolling_window, preliminary, take_snapshot, compute_rolling_averages, latest,
}
use thread_pool_backtesting.Profiler.Window.{
  Ordered, take_snapshot_windows, throttle_lets_all_through,
}

-- Made at the time 0, with a snapshot of a second later.
abbrev profiler : ThreadProfiler ℕ
profiler = record {
  total_tasks_submitted = 0;
  tasks_executed = 0;
  snapshots = preliminary whole 1000000000 4 10 ∷ [];
  last_snapshot_log = 0;
}

take_snapshot_windows_example :
    let q = take_snapshot whole profiler 1500000000 8 20 in
    Ordered whole (1500000000 - rolling_window) 1500000000 q.snapshots
    × (latest whole 1500000000 q.snapshots ≡ record (preliminary whole 1500000000 8 20) {
      avg_thread_count = (compute_rolling_averages whole q).0;
      avg_queue_size = (compute_rolling_averages whole q).1;
    })
take_snapshot_windows_example =
    take_snapshot_windows whole profiler 1000000000 1500000000 8 20 (omega arith) (omega arith)
      (omega arith, omega arith, tt)

throttle_lets_all_through_example :
    let q = take_snapshot whole profiler 1500000000 8 20 in
    let r = take_snapshot whole q 1500000000 9 30 in
    (q.last_snapshot_log ≡ 0)
    × (r.last_snapshot_log ≡ 0)
    × (length r.snapshots ≡ suc (length q.snapshots))
throttle_lets_all_through_example =
    throttle_lets_all_through whole profiler 1000000000 1500000000 8 20 9 30 (omega arith)
      (omega arith) (omega arith, omega arith, tt)

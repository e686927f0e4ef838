-- ===== src/Workloads/Tests.antt =====
-- The tests of ThreadPoolBenchmark that submit bodies, at sizes of main.cpp.
use thread_pool_backtesting.Base.{◌≡◌, ◌↔◌, true, none}
use thread_pool_backtesting.Harness.Tests.{whole}
use thread_pool_backtesting.Workloads.{run_bodies, submitted, sweep_heavy}
use thread_pool_backtesting.Workloads.Overflow.{grouped, events_of, Overflows, undefined_exactly}

undefined_exactly_example :
    (run_bodies whole (λ i. true) 0 (submitted (events_of (grouped sweep_heavy) 100)) ≡ none)
    ↔ Overflows (grouped sweep_heavy) 100
undefined_exactly_example = undefined_exactly whole (λ i. true) (grouped sweep_heavy) 100

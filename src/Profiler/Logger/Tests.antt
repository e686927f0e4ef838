-- ===== src/Profiler/Logger/Tests.antt =====
-- The theorems on the logger of ThreadPoolBenchmark/ThreadProfiler.h at concrete runs. Doubles are whole
-- numbers here.
use thread_pool_backtesting.Base.{
  ℕ, suc, ◌+◌, ◌<◌, ◌≤◌, ◌≡◌, ◌⊎◌, refl, true, Option, none, some, List, [], ◌∷◌, arith, length,
}
use thread_pool_backtesting.Harness.Tests.{whole}
use thread_pool_backtesting.Profiler.{
  new_profiler, increment_tasks_submitted, increment_tasks_executed, latest,
}
use thread_pool_backtesting.Profiler.Logger.{
  metric_value, total_tasks_submitted_is, tasks_executed_is, joining_logger, destroyed, Logged,
  Event, submits, executes, logger_goes, owner_goes, new_logged, log, LogReach, made, logs,
}
use thread_pool_backtesting.Profiler.Logger.Metrics.{metrics_file_whole}
use thread_pool_backtesting.Profiler.Logger.Ends.{left, destructor_ends}

abbrev or_same : Logged ℕ → Option (Logged ℕ) → Logged ℕ
or_same s none = s
or_same s (some s') = s'

abbrev after : Logged ℕ → List Event → Logged ℕ
after s [] = s
after s (e ∷ es) = after (or_same s (log whole s e)) es

after-LogReach :
    (s : Logged ℕ) (es : List Event) (steps : ℕ)
    → LogReach whole 0 steps s
    → (n : ℕ) × (n ≤ steps + length es) × LogReach whole 0 n (after s es)
after-LogReach s [] steps r = (steps, omega arith, r)
after-LogReach s (e ∷ es) steps r =
    let (m, k, q) = go (log whole s e) refl in
    let (n, l, p) = after-LogReach (or_same s (log whole s e)) es m q in (n, omega (arith, k, l), p)
  where
    go :
        (o : Option (Logged ℕ))
        → log whole s e ≡ o
        → (m : ℕ) × (m ≤ suc steps) × LogReach whole 0 m (or_same s o)
    go none h = (steps, omega arith, r)
    go (some s') h = (suc steps, omega arith, logs e r h)

-- Two tasks are submitted and one is executed; the logger makes a round; then the profiler is destroyed.
abbrev events : List Event
events =
    submits
    ∷ logger_goes 0 true
    ∷ submits
    ∷ logger_goes 0 true
    ∷ executes
    ∷ logger_goes 5 true
    ∷ logger_goes 5 true
    ∷ logger_goes 5 true
    ∷ logger_goes 5 true
    ∷ owner_goes
    ∷ logger_goes 5 true
    ∷ owner_goes
    ∷ owner_goes
    ∷ []

abbrev end : Logged ℕ
end = after (new_logged whole 0) events

end_file : end.metrics_file ≡ metric_value ∷ total_tasks_submitted_is 2 ∷ tasks_executed_is 1 ∷ []
unfolding log new_profiler increment_tasks_submitted increment_tasks_executed latest
end_file = refl

end_destroyed : end.owner ≡ destroyed
unfolding log new_profiler increment_tasks_submitted increment_tasks_executed latest
end_destroyed = refl

end_reached : (n : ℕ) × (n ≤ 0 + length events) × LogReach whole 0 n end
end_reached = after-LogReach (new_logged whole 0) events 0 made

metrics_file_whole_example :
    (end.metrics_file ≡ metric_value ∷ [])
    ⊎ ((a : ℕ) × (b : ℕ) × (end.metrics_file
          ≡ metric_value ∷ total_tasks_submitted_is a ∷ tasks_executed_is b ∷ [])
        × (a ≤ end.profiler.total_tasks_submitted)
        × (b ≤ end.profiler.tasks_executed))
metrics_file_whole_example =
    metrics_file_whole whole 0 end_reached.0 end (omega (arith, end_reached.1)) end_reached.2
      end_destroyed

-- The destructor has been called while the logger sleeps.
abbrev called : Logged ℕ
called = after (new_logged whole 0) (logger_goes 0 true ∷ owner_goes ∷ [])

called_owner : called.owner ≡ joining_logger
unfolding log
called_owner = refl

first_piece :
    log whole (new_logged whole 0) (logger_goes 0 true)
    ≡ some (after (new_logged whole 0) (logger_goes 0 true ∷ []))
unfolding log
first_piece = refl

second_piece :
    log whole (after (new_logged whole 0) (logger_goes 0 true ∷ [])) owner_goes ≡ some called
unfolding log
second_piece = refl

destructor_ends_example :
    (left whole called ≤ 8)
    × ((e : Event) (s' : Logged ℕ)
        → log whole called e ≡ some s'
        → left whole s' < left whole called)
    × ((called.owner ≡ destroyed)
        ⊎ ((e : Event) × (s' : Logged ℕ) × (log whole called e ≡ some s')))
destructor_ends_example =
    destructor_ends whole 0 2 called
      (logs owner_goes (logs (logger_goes 0 true) made first_piece) second_piece)
      (λ u. let in_join = called_owner in cc)

-- ===== src/Runners/Polling/Result.antt =====
-- HP_ThreadPool of ThreadPoolBenchmark/main.cpp returns, and each task has run then.
use thread_pool_backtesting.Base.{ℕ, ◌+◌, ◌≤◌, ◌≡◌, Option, some, weigh}
use thread_pool_backtesting.Runners.Polling.{PollingPool, IsPollingPool}

module _ {T : Type 0} (p : PollingPool T) (law : IsPollingPool p) where
  abbrev total : (T → ℕ) → p.State → ℕ
  total w s = weigh w (law.ran s) + weigh w (law.waiting s)

  -- With enough fuel the loop ends, always in the same state.
  abbrev Ends : (ℕ → Option p.State) → (p.State → Type 0) → Type 0
  Ends loop P = (k : ℕ) × (s : p.State) × ((fuel : ℕ) → k ≤ fuel → loop fuel ≡ some s) × P s

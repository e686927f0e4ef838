-- ===== src/Waves/Tests.antt =====
-- The theorems on ThreadPoolBenchmark/BackToBack.h at concrete calls.
use thread_pool_backtesting.Base.{ℕ, ◌*◌, ◌/◌, ◌≡◌, some, arith}
use thread_pool_backtesting.Queue.{returns}
use thread_pool_backtesting.Ranges.Orders.{ascending, ascending-IsOrder}
use thread_pool_backtesting.Waves.{test_back_to_back, back_to_back_returns}

abbrev ninety_percent : ℕ → ℕ
ninety_percent n = n * 9 / 10

back_to_back_returns_example : test_back_to_back (ascending 0) ninety_percent 21 ≡ some (returns 20)
back_to_back_returns_example =
    back_to_back_returns (ascending 0) ninety_percent 21 ascending-IsOrder (λ n. omega arith)
      (omega arith)

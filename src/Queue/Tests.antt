-- ===== src/Queue/Tests.antt =====
-- Concrete runs of ThreadPoolBenchmark/ThreadSafeQueue.h, and its theorems at concrete queues.
use thread_pool_backtesting.Base.{
  ℕ, ◌≡◌, refl, true, inr, false, none, some, List, [], ◌∷◌, ◌++◌, arith,
}
use thread_pool_backtesting.Queue.{
  ThreadSafeQueue, returns, blocked, new, push, try_push, wait_pop, clear, shut_down,
}
use thread_pool_backtesting.Queue.Call.{
  Call, call, pushes, try_pushes, wait_pops, clears, shuts_down,
}
use thread_pool_backtesting.Queue.RoundTrip.{push_all, wait_pop_all, push-then-wait_pop}
use thread_pool_backtesting.Queue.Invariant.{IsValid, call-IsValid}
use thread_pool_backtesting.Queue.History.{run, all_puts, all_takes, run_fifo}
use thread_pool_backtesting.Queue.Wakeup.{IsAwake, call-IsAwake}

-- A full queue of one place, with a producer asleep.
abbrev full : ThreadSafeQueue ℕ
full = record {
  cv = record { sleeping = 0; woken = 0 };
  cv_full = record { sleeping = 1; woken = 0 };
  queue = 7 ∷ [];
  max_size = 1;
  size = 1;
  shutdown = false;
}

-- An empty queue with two consumers asleep.
abbrev idle : ThreadSafeQueue ℕ
idle = record {
  cv = record { sleeping = 2; woken = 0 };
  cv_full = record { sleeping = 0; woken = 0 };
  queue = [];
  max_size = 0;
  size = 0;
  shutdown = false;
}

abbrev calls : List (Call ℕ)
calls = pushes 1 ∷ try_pushes 2 ∷ wait_pops ∷ pushes 3 ∷ clears ∷ shuts_down ∷ pushes 4 ∷ []

full_refuses : (try_push full 8).1 ≡ false
unfolding try_push
full_refuses = refl

full_blocks : (push full 8).1 ≡ blocked
unfolding push
full_blocks = refl

push_wakes : (push idle 5).0.cv ≡ record { sleeping = 1; woken = 1 }
unfolding push
push_wakes = refl

closed_drains : (wait_pop (shut_down full)).1 ≡ returns (some 7)
unfolding wait_pop shut_down
closed_drains = refl

closed_empty : (wait_pop (shut_down (clear full))).1 ≡ returns none
unfolding wait_pop shut_down clear
closed_empty = refl

call-IsValid_example : IsValid (call full wait_pops)
call-IsValid_example =
    call-IsValid full wait_pops (record { counted = refl; within = λ _. omega arith })

run_fifo_example :
    [] ++ all_puts (new 0) calls ≡ all_takes (new 0) calls ++ (run (new 0) calls).queue
unfolding new
run_fifo_example = run_fifo (new 0) calls

call-IsAwake_example : IsAwake (call idle (pushes 5))
call-IsAwake_example =
    call-IsAwake idle (pushes 5) (λ e. cc)
      (record {
        items_seen = λ _. omega arith;
        places_seen = λ _. omega arith;
        closed_awake = λ e. cc;
      })

-- A queue of three places with one value in it.
abbrev roomy : ThreadSafeQueue ℕ
roomy = record idle { queue = 4 ∷ []; size = 1; max_size = 3 }

push-then-wait_pop_example :
    let pushed = push_all roomy (5 ∷ 6 ∷ []) in
    let popped = wait_pop_all 3 pushed.0 in
    (pushed.1 ≡ returns true ∷ returns true ∷ [])
    × (popped.1 ≡ returns (some 4) ∷ returns (some 5) ∷ returns (some 6) ∷ [])
    × (popped.0.queue ≡ [])
    × (popped.0.size ≡ 0)
    × (popped.0.shutdown ≡ false)
push-then-wait_pop_example =
    push-then-wait_pop roomy (5 ∷ 6 ∷ []) refl refl (omega arith) (inr (omega arith))

-- ===== src/Waves.antt =====
-- ThreadPoolBenchmark/BackToBack.h: two waves of tasks, the second when most of the first are done.
-- The pool returns when it has run what it runs: `order n` lists the tasks that it has run by then of a
-- vector of `n`, by index. Nothing runs after that, so a wait that does not end at once does not end.
mod Tests
use thread_pool_backtesting.Base.{
  ℕ, ◌+◌, ◌*◌, ◌/◌, ◌%◌, ◌≤◌, ◌<◌, ◌≡◌, refl, ap, ◌∙◌, Option, none, some, List, [], ◌∷◌, arith,
  length, ltb, if◌then◌else◌, size_mod, ◌^◌, ◌⊎◌, inl, inr, Bool-cases,
}
use thread_pool_backtesting.Queue.{Attempt, blocked, returns}
use thread_pool_backtesting.Ranges.{◌>>=◌}
use thread_pool_backtesting.Ranges.Orders.{IsOrder, order-length}
use thread_pool_backtesting.Workloads.{Body, noop, add_loop, scale_loop, short_or_heavy}
use thread_pool_backtesting.Contention.{run_tasks, increment_counter}
use thread_pool_backtesting.Contention.Counts.{counter-run}

-- `while (completed.load() < bound) sleep`
abbrev wait_for : ℕ → ℕ → Attempt ℕ
wait_for completed bound = if ltb completed bound then blocked else returns completed

abbrev and_then : Attempt ℕ → (ℕ → Option (Attempt ℕ)) → Option (Attempt ℕ)
and_then blocked rest = some blocked
and_then (returns completed) rest = rest completed

-- `ninety_percent n` is `static_cast<size_t>(n * 0.9)`. The result is what `completed` holds at the end.
module _ (order : ℕ → List ℕ) (ninety_percent : ℕ → ℕ) where
  unfoldable pub run_back_to_back : (batch_size : ℕ) → Option (Attempt ℕ)
  run_back_to_back batch_size = do
    let total = (batch_size * 2) % size_mod
    completed ← run_tasks increment_counter (order batch_size) 0
    and_then (wait_for completed (ninety_percent batch_size)) (λ completed. do
      completed' ← run_tasks increment_counter (order batch_size) completed
      some (wait_for completed' total))

  -- The four tests: the body of each, and the size of its waves.
  unfoldable pub test_back_to_back : (num_tasks : ℕ) → Option (Attempt ℕ)
  test_back_to_back num_tasks = run_back_to_back (num_tasks / 2)

pub data BackToBack : Type 0 where
  back_to_back_noop : BackToBack
  back_to_back_short_compute : BackToBack
  back_to_back_heavy_compute : BackToBack
  back_to_back_mixed : BackToBack

abbrev pub task_body : BackToBack → Body
task_body back_to_back_noop = noop
task_body back_to_back_short_compute = add_loop 100
task_body back_to_back_heavy_compute = scale_loop
task_body back_to_back_mixed = short_or_heavy

waits_cases :
    (completed bound : ℕ)
    → (wait_for completed bound ≡ blocked) ⊎ (wait_for completed bound ≡ returns completed)
waits_cases completed bound = elim (Bool-cases (ltb completed bound)) [
  | inl short ↦ inl (rw short refl)
  | inr enough ↦ inr (rw enough refl)
]

module _ (order : ℕ → List ℕ) (ninety_percent : ℕ → ℕ) where
  -- With fewer than 2^63 tasks, a threshold that is at most a wave, and a pool that has run each
  -- task when it returns, both waits end, and twice half the tasks have run: all of them, or all
  -- but one if their number is odd.
  pub back_to_back_returns :
      (num_tasks : ℕ)
      → IsOrder order
      → ((n : ℕ) → ninety_percent n ≤ n)
      → num_tasks < 2 ^ 63
      → test_back_to_back order ninety_percent num_tasks
        ≡ some (returns (num_tasks / 2 + num_tasks / 2))
  unfolding test_back_to_back run_back_to_back
  back_to_back_returns num_tasks law share small =
      let n = num_tasks / 2 in
      let len = order-length order n law in
      let first : run_tasks increment_counter (order n) 0 ≡ some n =
        counter-run (order n) 0 (omega (arith, len)) ∙ ap some (omega (arith, len)) in
      let second : run_tasks increment_counter (order n) n ≡ some (n + n) =
        counter-run (order n) n (omega (arith, len)) ∙ ap some (omega (arith, len)) in
      let ended : wait_for n (ninety_percent n) ≡ returns n = ground (arith, share n) in
      let all : wait_for (n + n) ((n * 2) % size_mod) ≡ returns (n + n) = ground arith in
      rw (first, ended, second, all) refl

  -- A pool that returns with a task of a wave (of fewer than 2^63 tasks) not run makes the test
  -- wait for ever.
  back_to_back_hangs :
      (num_tasks : ℕ)
      → num_tasks < 2 ^ 63
      → length (order (num_tasks / 2)) < num_tasks / 2
      → test_back_to_back order ninety_percent num_tasks ≡ some blocked
  unfolding test_back_to_back run_back_to_back
  back_to_back_hangs num_tasks small short =
      let n = num_tasks / 2 in
      let k = length (order n) in
      let first : run_tasks increment_counter (order n) 0 ≡ some (0 + k) =
        counter-run (order n) 0 (omega arith) in
      let second : run_tasks increment_counter (order n) (0 + k) ≡ some (0 + k + k) =
        counter-run (order n) (0 + k) (omega arith) in
      let all : wait_for (0 + k + k) ((n * 2) % size_mod) ≡ blocked = ground arith in
      rw first (elim (waits_cases (0 + k) (ninety_percent n)) [
        | inl stuck ↦ rw stuck refl
        | inr ended ↦ rw (ended, second, all) refl
      ])

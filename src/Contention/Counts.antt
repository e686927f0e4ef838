-- ===== src/Contention/Counts.antt =====
-- What the counters of ThreadPoolBenchmark/HighContention.h hold when the pool is done.
use thread_pool_backtesting.Base.{
  ℕ, suc, ◌+◌, ◌%◌, ◌^◌, ◌≤◌, ◌<◌, ◌≡◌, refl, ap, ◌∙◌, some, List, [], ◌∷◌, arith, length, weigh,
  ◌==◌, if◌then◌else◌, update, size_mod,
}
use thread_pool_backtesting.Ranges.{sum_from}
use thread_pool_backtesting.Ranges.Orders.{IsOrder, order-length}
use thread_pool_backtesting.Workloads.{add_int}
use thread_pool_backtesting.Contention.{
  run_tasks, increment_counter, increment_shared, increment_slot, test_atomic_increment,
  test_mutex_locking, test_false_sharing,
}

pub counter-run :
    (order : List ℕ) (c : ℕ)
    → c + length order < size_mod
    → run_tasks increment_counter order c ≡ some (c + length order)
unfolding run_tasks
counter-run [] c h = let e : c + 0 ≡ c = omega arith in rw e refl
counter-run (i ∷ order) c h =
    let e : (c + 1) % size_mod ≡ c + 1 = omega arith in
    let f : c + suc (length order) ≡ c + 1 + length order = omega arith in
    rw (e, f) (counter-run order (c + 1) (omega arith))

shared-run :
    (order : List ℕ) (c : ℕ)
    → c + length order < 2 ^ 31
    → run_tasks increment_shared order c ≡ some (c + length order)
unfolding run_tasks
shared-run [] c h = let e : c + 0 ≡ c = omega arith in rw e refl
shared-run (i ∷ order) c h =
    let fits : add_int c 1 ≡ some (c + 1) = ground arith in
    let f : c + suc (length order) ≡ c + 1 + length order = omega arith in
    rw (fits, f) (shared-run order (c + 1) (omega arith))

-- 1 for the tasks of slot `k`, 0 for the others.
abbrev pub of_slot : ℕ → ℕ → ℕ
of_slot k i = if i % 64 == k then 1 else 0

of_slot-le : (k i : ℕ) → of_slot k i ≤ 1
of_slot-le k i = ground arith

slot-update :
    (slots : ℕ → ℕ) (i k : ℕ) → update slots (i % 64) (slots (i % 64) + 1) k ≡ slots k + of_slot k i
slot-update slots i k = ground arith

weigh-le-length : (k : ℕ) (order : List ℕ) → weigh (of_slot k) order ≤ length order
weigh-le-length k [] = omega arith
weigh-le-length k (i ∷ order) = omega (arith, of_slot-le k i, weigh-le-length k order)

slots-run :
    (order : List ℕ) (slots : ℕ → ℕ) (bound : ℕ)
    → ((k : ℕ) → slots k ≤ bound)
    → bound + length order < size_mod
    → (final : ℕ → ℕ) × (run_tasks increment_slot order slots ≡ some final)
      × ((k : ℕ) → final k ≡ slots k + weigh (of_slot k) order)
unfolding run_tasks
slots-run [] slots bound low h = (slots, refl, λ k. omega arith)
slots-run (i ∷ order) slots bound low h =
    let e : (slots (i % 64) + 1) % size_mod ≡ slots (i % 64) + 1 = omega (arith, low (i % 64)) in
    let (final, f, sums) =
      slots-run order (update slots (i % 64) (slots (i % 64) + 1)) (bound + 1)
        (λ k. omega (arith, slot-update slots i k, low k, of_slot-le k i)) (omega arith) in
    (final, rw e f, λ k. omega (arith, sums k, slot-update slots i k))

-- Under a pool that runs each of fewer than 2^31 tasks once, in whatever order: the atomic counter
-- and the counter under the mutex end at the number of tasks (no increment is lost, and the int
-- does not overflow), and each slot of the array at the number of the tasks i with that i % 64.
pub contention_counts :
    (order : ℕ → List ℕ) (num_tasks : ℕ)
    → IsOrder order
    → num_tasks < 2 ^ 31
    → (test_atomic_increment order num_tasks ≡ some num_tasks)
      × (test_mutex_locking order num_tasks ≡ some num_tasks)
      × (slots : ℕ → ℕ) × (test_false_sharing order num_tasks ≡ some slots)
      × ((k : ℕ) → slots k ≡ sum_from (of_slot k) 0 num_tasks)
unfolding test_atomic_increment test_mutex_locking test_false_sharing
contention_counts order n law small =
    let len = order-length order n law in
    let (slots, e, sums) = slots-run (order n) (λ _. 0) 0 (λ k. omega arith) (omega (arith, len)) in
    (
      counter-run (order n) 0 (omega (arith, len)) ∙ ap some (omega (arith, len)),
      shared-run (order n) 0 (omega (arith, len)) ∙ ap some (omega (arith, len)),
      slots,
      e,
      λ k. omega (arith, sums k, law.covers n (of_slot k)),
    )

-- ===== src/Tbb.antt =====
-- What ThreadPoolBenchmark uses of oneTBB, whose library is outside the model: `parallel_for` over a
-- `blocked_range`, `task_group` and the concurrency of a `task_arena`, with what oneTBB documents.
use thread_pool_backtesting.Base.{
  ℕ, zero, suc, ◌+◌, ◌-◌, ◌<◌, ◌≡◌, refl, List, [], ◌∷◌, arith, weigh,
}
use thread_pool_backtesting.Ranges.{sum_from, over_range, AllWithin}
use thread_pool_backtesting.Ranges.Chunks.{AllBelow}

-- tbb::auto_partitioner, affinity_partitioner, static_partitioner
pub data Partitioner : Type 0 where
  auto_partitioner affinity_partitioner static_partitioner : Partitioner

pub record Tbb : Type 0 where
  -- The subranges of `[0, n)` with which `parallel_for` calls its body, in the order of the calls' ends.
  pub parallel_for : Partitioner → ℕ → List (ℕ × ℕ)
  -- The order in which a group's `n` functions end, by the number under which each was submitted.
  pub task_group : ℕ → List ℕ
  pub max_concurrency : ℕ

pub record IsTbb (t : Tbb) : Type 0 where
  pub ranges_within : (p : Partitioner) (n : ℕ) → AllWithin n (t.parallel_for p n)
  -- Each index is in one subrange.
  pub ranges_cover :
      (p : Partitioner) (n : ℕ) (w : ℕ → ℕ)
      → weigh (over_range w) (t.parallel_for p n) ≡ sum_from w 0 n
  pub group_within : (n : ℕ) → AllBelow n (t.task_group n)
  -- `wait` returns when each function has run once.
  pub group_covers : (n : ℕ) (w : ℕ → ℕ) → weigh w (t.task_group n) ≡ sum_from w 0 n
  pub some_concurrency : 0 < t.max_concurrency

-- One thread that takes the subranges and the functions as they come: the assumptions can be met.
count_up : ℕ → ℕ → List ℕ
count_up begin zero = []
count_up begin (suc n) = begin ∷ count_up (begin + 1) n

unfoldable pub sequential : Tbb
unfolding count_up
sequential = record {
  parallel_for = λ p n. (0, n) ∷ [];
  task_group = λ n. count_up 0 n;
  max_concurrency = 24;
}

count_up-below : (begin n m : ℕ) → begin + n ≡ m → AllBelow m (count_up begin n)
unfolding count_up
count_up-below begin zero m e = tt
count_up-below begin (suc n) m e = (omega arith, count_up-below (begin + 1) n m (omega arith))

weigh-count_up : (w : ℕ → ℕ) (begin n : ℕ) → weigh w (count_up begin n) ≡ sum_from w begin n
unfolding count_up
weigh-count_up w begin zero = refl
weigh-count_up w begin (suc n) = omega (arith, weigh-count_up w (begin + 1) n)

pub sequential-IsTbb : IsTbb sequential
unfolding sequential
sequential-IsTbb = record {
  ranges_within = λ p n. (omega arith, omega arith, tt);
  ranges_cover = λ p n w. let e : n - 0 ≡ n = omega arith in rw e (omega arith);
  group_within = λ n. count_up-below 0 n n (omega arith);
  group_covers = λ n w. weigh-count_up w 0 n;
  some_concurrency = omega arith;
}

-- ===== src/Slots.antt =====
-- ThreadPoolBenchmark/FalseSharing.h: tasks that write each to a place of its own in a vector, which is
-- `static`: the first call makes it, as large as its tasks need, and later calls find it.
pub mod Writes
pub mod Calls
mod Tests
use thread_pool_backtesting.Base.{
  ℕ, zero, suc, ◌+◌, ◌*◌, ◌%◌, ◌^◌, Option, none, some, List, [], ◌∷◌, replicate, size_mod,
}
use thread_pool_backtesting.Ranges.{◌>>=◌}
use thread_pool_backtesting.Contention.{run_tasks, increment_counter}

-- The three tests with a vector. A padded slot is a number with its padding.
pub data Spacing : Type 0 where
  adjacent_slots padded_slots stride_slots : Spacing

-- `STRIDE` is 128.
abbrev pub place_of : Spacing → ℕ → ℕ
place_of adjacent_slots i = i
place_of padded_slots i = i
place_of stride_slots i = (i * 128) % size_mod

abbrev pub places : Spacing → (num_tasks : ℕ) → ℕ
places adjacent_slots num_tasks = num_tasks
places padded_slots num_tasks = num_tasks
places stride_slots num_tasks = (num_tasks * 128) % size_mod

-- What task `i` writes: a `uint8_t` or a `uint64_t`.
abbrev pub value_of : Spacing → ℕ → ℕ
value_of adjacent_slots i = i % 2 ^ 8
value_of padded_slots i = i % 2 ^ 64
value_of stride_slots i = i % 2 ^ 64

-- `slots[i] = v`; `none` is a write out of range.
unfoldable pub store : List ℕ → ℕ → ℕ → Option (List ℕ)
store [] i v = none
store (x ∷ xs) zero v = some (v ∷ xs)
store (x ∷ xs) (suc i) v = do rest ← store xs i v; some (x ∷ rest)

abbrev pub write_own : Spacing → ℕ → List ℕ → Option (List ℕ)
write_own spacing i slots = store slots (place_of spacing i) (value_of spacing i)

-- The vector that a call works on: `none` is one that no call has made yet.
abbrev pub static_slots : Spacing → (num_tasks : ℕ) → Option (List ℕ) → List ℕ
static_slots spacing num_tasks none = replicate (places spacing num_tasks) 0
static_slots spacing num_tasks (some slots) = slots

-- The tests, for a pool that runs `num_tasks` tasks in the order `order num_tasks`.
module _ (order : ℕ → List ℕ) where
  unfoldable pub test_slots : Spacing → (num_tasks : ℕ) → Option (List ℕ) → Option (List ℕ)
  test_slots spacing num_tasks made =
      run_tasks (write_own spacing) (order num_tasks) (static_slots spacing num_tasks made)

  -- The counter is `static`, too, and goes on from where the call before left it.
  unfoldable pub test_shared_counter : (num_tasks : ℕ) → (shared_counter : ℕ) → Option ℕ
  test_shared_counter num_tasks shared_counter =
      run_tasks increment_counter (order num_tasks) shared_counter

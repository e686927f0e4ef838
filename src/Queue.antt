-- ===== src/Queue.antt =====
-- ThreadPoolBenchmark/ThreadSafeQueue.h: the bounded blocking queue with shutdown.
-- A definition is what one thread does between taking `_mutex` and giving it up, by returning or by
-- going to sleep in a wait. `_cv` and `_cvFull` count the threads asleep in them, and those that a
-- notification has woken and that have not yet taken the mutex again.
pub mod Call
pub mod Invariant
pub mod History
pub mod Wakeup
pub mod RoundTrip
mod Tests
use thread_pool_backtesting.Base.{
  ℕ, ◌+◌, ◌-◌, ◌%◌, Bool, true, false, not, ◌&&◌, ◌||◌, Option, none, some, List, [], ◌∷◌, ◌++◌,
  length, ltb, leb, ◌==◌, if◌then◌else◌, size_mod,
}

-- std::condition_variable
pub record CondVar : Type 0 where
  pub sleeping : ℕ
  pub woken : ℕ

abbrev pub nobody : CondVar
nobody = record { sleeping = 0; woken = 0 }

pub notify_one : CondVar → CondVar
notify_one c =
    if c.sleeping == 0 then c else record c { sleeping = c.sleeping - 1; woken = c.woken + 1 }

pub notify_all : CondVar → CondVar
notify_all c = record { sleeping = 0; woken = c.woken + c.sleeping }

-- A wait whose predicate is false.
pub fall_asleep : CondVar → CondVar
fall_asleep c = record c { sleeping = c.sleeping + 1 }

-- A woken thread takes the mutex again.
pub resume : CondVar → CondVar
resume c = record c { woken = c.woken - 1 }

-- A sleeper leaves with no notification: a spurious wake-up, or the end of a timed wait.
pub leave : CondVar → CondVar
leave c = record c { sleeping = c.sleeping - 1 }

pub record ThreadSafeQueue {ℓ} (A : Type ℓ) : Type ℓ where
  pub cv : CondVar
  pub cv_full : CondVar
  pub queue : List A
  pub max_size : ℕ
  pub size : ℕ
  pub shutdown : Bool

-- What a call does that may have to wait.
pub data Attempt {ℓ} (R : Type ℓ) : Type ℓ where
  blocked : Attempt R
  returns : R → Attempt R

-- `++_size` and `--_size` on a `size_t`.
pub increment : ℕ → ℕ
increment n = (n + 1) % size_mod

pub decrement : ℕ → ℕ
decrement n = (n + size_mod - 1) % size_mod

-- `_maxSize != 0`
abbrev pub is_bounded : ℕ → Bool
is_bounded n = not (n == 0)

module _ {ℓ} {A : Type ℓ} where
  unfoldable pub new : ℕ → ThreadSafeQueue A
  new max_size = record {
    cv = nobody;
    cv_full = nobody;
    queue = [];
    max_size = max_size;
    size = 0;
    shutdown = false;
  }

  -- `emplace_back`, `++_size` and `_cv.notify_one()`, the end of `push` and of `tryPush`
  pub emplace : ThreadSafeQueue A → A → ThreadSafeQueue A
  unfolding increment notify_one
  emplace q value = record q {
    queue = q.queue ++ value ∷ [];
    size = increment q.size;
    cv = notify_one q.cv;
  }

  -- `pop_front`, `--_size` and `_cvFull.notify_one()`, the end of the three pops
  pub pop_front : ThreadSafeQueue A → List A → ThreadSafeQueue A
  unfolding decrement notify_one
  pop_front q rest = record q {
    queue = rest;
    size = decrement q.size;
    cv_full = notify_one q.cv_full;
  }

  -- The test that `tryPush` makes before it takes the mutex.
  unfoldable pub try_push_open : ThreadSafeQueue A → Bool
  try_push_open q = not q.shutdown

  -- `tryPush` under the mutex. It does not test `_shutdown` again.
  unfoldable pub try_push_locked : ThreadSafeQueue A → A → ThreadSafeQueue A × Bool
  unfolding emplace
  try_push_locked q value =
      if is_bounded q.max_size && leb q.max_size (length q.queue)
      then (q, false)
      else (emplace q value, true)

  -- `tryPush`, when nothing happens between its test and the mutex.
  unfoldable pub try_push : ThreadSafeQueue A → A → ThreadSafeQueue A × Bool
  unfolding try_push_open try_push_locked
  try_push q value = if try_push_open q then try_push_locked q value else (q, false)

  abbrev pub has_space : ThreadSafeQueue A → Bool
  has_space q = q.shutdown || (not (is_bounded q.max_size) || ltb (length q.queue) q.max_size)

  -- `push` returns nothing: the Boolean says whether the value went into the queue.
  unfoldable pub push : ThreadSafeQueue A → A → ThreadSafeQueue A × Attempt Bool
  unfolding emplace fall_asleep
  push q value =
      if has_space q
      then (if q.shutdown then (q, returns false) else (emplace q value, returns true))
      else (record q { cv_full = fall_asleep q.cv_full }, blocked)

  abbrev front : ThreadSafeQueue A → List A → ThreadSafeQueue A × Option A
  front q [] = (q, none)
  front q (value ∷ rest) = (pop_front q rest, some value)

  -- A pop's `true` and its `result` are `some`; its `false`, which leaves `result` alone, is `none`.
  unfoldable pub try_pop : ThreadSafeQueue A → ThreadSafeQueue A × Option A
  unfolding pop_front
  try_pop q = front q q.queue

  wait_front : ThreadSafeQueue A → List A → ThreadSafeQueue A × Attempt (Option A)
  unfolding pop_front fall_asleep
  wait_front q [] =
      if q.shutdown then (q, returns none) else (record q { cv = fall_asleep q.cv }, blocked)
  wait_front q (value ∷ rest) = (pop_front q rest, returns (some value))

  unfoldable pub wait_pop : ThreadSafeQueue A → ThreadSafeQueue A × Attempt (Option A)
  unfolding wait_front
  wait_pop q = wait_front q q.queue

  timed_front : ThreadSafeQueue A → Bool → List A → ThreadSafeQueue A × Attempt (Option A)
  unfolding pop_front fall_asleep
  timed_front q elapsed [] =
      if q.shutdown || elapsed
      then (q, returns none)
      else (record q { cv = fall_asleep q.cv }, blocked)
  timed_front q elapsed (value ∷ rest) = (pop_front q rest, returns (some value))

  -- `waitPopFor`, from a test of the predicate on; `elapsed` says whether the time is up at the test.
  unfoldable pub wait_pop_for : ThreadSafeQueue A → Bool → ThreadSafeQueue A × Attempt (Option A)
  unfolding timed_front
  wait_pop_for q elapsed = timed_front q elapsed q.queue

  unfoldable pub empty : ThreadSafeQueue A → Bool
  empty q = q.size == 0

  unfoldable pub size : ThreadSafeQueue A → ℕ
  size q = q.size

  -- `shutdown()`
  unfoldable pub shut_down : ThreadSafeQueue A → ThreadSafeQueue A
  unfolding notify_all
  shut_down q = record q { shutdown = true; cv = notify_all q.cv; cv_full = notify_all q.cv_full }

  unfoldable pub clear : ThreadSafeQueue A → ThreadSafeQueue A
  clear q = record q { queue = []; size = 0 }

  unfoldable pub is_shutdown : ThreadSafeQueue A → Bool
  is_shutdown q = q.shutdown

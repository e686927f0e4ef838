-- ===== src/Pool/System.antt =====
-- The pool as a system of threads (ThreadPoolBenchmark/ThreadPool.h): any number of workers and of
-- threads that call, in any order of their pieces.
use Prim.Native.String.{String}
use thread_pool_backtesting.Base.{ℕ, ◌<◌, ◌≡◌, Bool, some}
use thread_pool_backtesting.Pool.{
  ThreadPool, Outcome, Request, outside, construct, work, begin, continue,
}

module _ {T : Type 0} where
  -- One piece of work by one of the pool's workers or of `m` callers.
  pub data Step (m : ℕ) (p : ThreadPool T) (q : ThreadPool T) : Type 0 where
    works : (i : ℕ) (o : Outcome) → i < p.current_threads → work p i o ≡ some q → Step m p q
    begins : (j : ℕ) (r : Request T) → j < m → p.callers j ≡ outside → q ≡ begin p j r → Step m p q
    continues : (j : ℕ) → j < m → continue p j ≡ some q → Step m p q

  -- The states of a pool that one of its `m` callers can bring about, from the constructor on.
  pub data Reach (n capacity m : ℕ) : ThreadPool T → Type 0 where
    start :
        (storage affinity : Bool) (name : String)
        → Reach n capacity m (construct storage name n capacity affinity)
    next : {p q : ThreadPool T} → Reach n capacity m p → Step m p q → Reach n capacity m q

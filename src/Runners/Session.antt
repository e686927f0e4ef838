-- ===== src/Runners/Session.antt =====
-- A runner of ThreadPoolBenchmark/main.cpp that uses the program's own pool: the main thread makes its
-- calls one after the other, and the pool's workers go on meanwhile. The pool has no bound.
pub mod Progress
pub mod Result
pub mod Nearer
pub mod Returns
pub mod Ends
pub mod Order
use Prim.Native.String.{String}
use thread_pool_backtesting.Base.{ℕ, ◌<◌, ◌≡◌, refl, sym, subst, Bool, some, List, [], ◌∷◌, arith}
use thread_pool_backtesting.Pool.{
  ThreadPool, Outcome, Request, outside, construct, work, begin, continue,
}
use thread_pool_backtesting.Pool.System.{Step, works, begins, continues, Reach, start, next}

module _ {T : Type 0} where
  -- One piece by a worker or by the main thread, which has the calls `rest` before it.
  pub data Move (p : ThreadPool T) (rest : List (Request T)) (q : ThreadPool T)
      (rest' : List (Request T)) : Type 0 where
    worker_moves :
        (i : ℕ) (o : Outcome)
        → i < p.current_threads
        → work p i o ≡ some q
        → rest' ≡ rest
        → Move p rest q rest'
    main_begins :
        (r : Request T)
        → rest ≡ r ∷ rest'
        → p.callers 0 ≡ outside
        → q ≡ begin p 0 r
        → Move p rest q rest'
    main_continues : continue p 0 ≡ some q → rest' ≡ rest → Move p rest q rest'

  -- The states that a runner with `n` workers and the calls `program` can get to.
  pub data Session (n : ℕ) (program : List (Request T))
      : ThreadPool T → List (Request T) → Type 0 where
    opened :
        (storage affinity : Bool) (name : String)
        → Session n program (construct storage name n 0 affinity) program
    moved :
        {p q : ThreadPool T} {rest rest' : List (Request T)}
        → Session n program p rest
        → Move p rest q rest'
        → Session n program q rest'

  Move-Step :
      {p q : ThreadPool T} {rest rest' : List (Request T)} → Move p rest q rest' → Step 1 p q
  Move-Step (worker_moves i o lt h e) = works i o lt h
  Move-Step (main_begins r e out h) = begins 0 r (omega arith) out h
  Move-Step (main_continues h e) = continues 0 (omega arith) h

  pub Session-Reach :
      {n : ℕ} {program rest : List (Request T)} {p : ThreadPool T}
      → Session n program p rest
      → Reach n 0 1 p
  Session-Reach (opened storage affinity name) = start storage affinity name
  Session-Reach (moved s m) = next (Session-Reach s) (Move-Step m)

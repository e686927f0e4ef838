-- ===== src/Runners/Session/Ends.antt =====
-- That a runner of ThreadPoolBenchmark/main.cpp that uses the program's own pool comes to its end however its
-- moves and its workers' are interleaved, as long as it does not look at its queue for ever.
use Prim.Native.String.{String}
use thread_pool_backtesting.Base.{
  tally_constant, ◌∙◌, Bool, ◌≤◌, ℕ, zero, suc, ◌+◌, ◌*◌, ◌<◌, ◌≡◌, refl, sym, subst, ap, ◌⊎◌, inl,
  inr, some, List, [], ◌∷◌, arith, length, size_mod,
}
use thread_pool_backtesting.Queue.{new}
use thread_pool_backtesting.Pool.{
  construct, ThreadPool, Request, starting, CallerPc, outside, admitted, unlocked, clearing,
  draining, closing, joining, continue,
}
use thread_pool_backtesting.Pool.Conservation.{Reach-Conserved}
use thread_pool_backtesting.Pool.Drain.{rank}
use thread_pool_backtesting.Runners.{main_thread_pool}
use thread_pool_backtesting.Runners.Session.{
  opened, Move, worker_moves, main_begins, main_continues, Session, moved, Session-Reach,
}
use thread_pool_backtesting.Runners.Session.Nearer.{
  ahead, begin-ahead, continue-ahead, drained-ahead, worker-ahead,
}
use thread_pool_backtesting.Runners.Session.Returns.{session-near}

module _ {T : Type 0} (n : ℕ) where
  main-ahead :
      {q : ThreadPool T} (p : ThreadPool T) (rest : List (Request T)) (c : CallerPc T)
      → p.callers 0 ≡ c
      → p.current_threads ≡ n
      → continue p 0 ≡ some q
      → (ahead n q rest < ahead n p rest) ⊎ (q ≡ p)
  main-ahead p rest draining e k h = drained-ahead n p rest e h
  main-ahead p rest outside e k h = inl (omega (arith, continue-ahead n p outside e (λ d. cc) k h))
  main-ahead p rest (admitted t b) e k h =
      inl (omega (arith, continue-ahead n p (admitted t b) e (λ d. cc) k h))
  main-ahead p rest (unlocked t) e k h =
      inl (omega (arith, continue-ahead n p (unlocked t) e (λ d. cc) k h))
  main-ahead p rest clearing e k h =
      inl (omega (arith, continue-ahead n p clearing e (λ d. cc) k h))
  main-ahead p rest closing e k h = inl (omega (arith, continue-ahead n p closing e (λ d. cc) k h))
  main-ahead p rest (joining j) e k h =
      inl (omega (arith, continue-ahead n p (joining j) e (λ d. cc) k h))

  Move-ahead :
      {p q : ThreadPool T} {rest rest' : List (Request T)}
      → p.current_threads ≡ n
      → Move p rest q rest'
      → (ahead n q rest' < ahead n p rest) ⊎ ((q ≡ p) × (rest' ≡ rest))
  Move-ahead {p} {q} {rest} k (worker_moves i o lt h e) = inl (
      subst (λ r. ahead n q r < ahead n p rest) (sym e)
        (worker-ahead n p rest i o (subst (λ m. i < m) k lt) h))
  Move-ahead {p} {q} {rest} {rest'} k (main_begins r e out h) =
      inl (rw (h, e) (begin-ahead n p r rest' out))
  Move-ahead {p} {q} {rest} k (main_continues h e) =
      elim (main-ahead p rest (p.callers 0) refl k h) [
        | inl less ↦ inl (subst (λ r. ahead n q r < ahead n p rest) (sym e) less)
        | inr same ↦ inr (same, e)
      ]

  -- The states that a runner can get to, with the number of moves that have changed something.
  pub data Counted (program : List (Request T)) : ℕ → ThreadPool T → List (Request T) → Type 0 where
    fresh :
        (storage affinity : Bool) (name : String)
        → Counted program zero (construct storage name n 0 affinity) program
    changed :
        {k : ℕ} {p q : ThreadPool T} {rest rest' : List (Request T)}
        → Counted program k p rest
        → Move p rest q rest'
        → ¬ ((q ≡ p) × (rest' ≡ rest))
        → Counted program (suc k) q rest'
    unchanged :
        {k : ℕ} {p q : ThreadPool T} {rest rest' : List (Request T)}
        → Counted program k p rest
        → Move p rest q rest'
        → q ≡ p
        → rest' ≡ rest
        → Counted program k q rest'

  Counted-Session :
      {program rest : List (Request T)} {k : ℕ} {p : ThreadPool T}
      → Counted program k p rest
      → Session n program p rest
  Counted-Session (fresh storage affinity name) = opened storage affinity name
  Counted-Session (changed c m d) = moved (Counted-Session c) m
  Counted-Session (unchanged c m e f) = moved (Counted-Session c) m

  length-main_thread_pool : (tasks : List T) → length (main_thread_pool tasks) ≡ length tasks + 2
  unfolding main_thread_pool
  length-main_thread_pool [] = refl
  length-main_thread_pool (t ∷ tasks) = omega (arith, length-main_thread_pool tasks)

  threads :
      {program rest : List (Request T)} {p : ThreadPool T}
      → Session n program p rest
      → p.current_threads ≡ n
  threads r = let conserved = Reach-Conserved (λ _. 0) (Session-Reach r) in conserved.threads

  Counted-bounded :
      (program : List (Request T)) {rest : List (Request T)} {k : ℕ} {p : ThreadPool T}
      → Counted program k p rest
      → k + ahead n p rest ≤ (n + 6) * length program + 2 * n
  unfolding construct new
  Counted-bounded program (fresh storage affinity name) =
      omega (arith, tally_constant (rank {T = T}) starting n)
  Counted-bounded program (changed c m d) = elim (Move-ahead (threads (Counted-Session c)) m) [
    | inl less ↦ omega (arith, Counted-bounded program c, less)
    | inr same ↦ absurd (d same)
  ]
  Counted-bounded program {k = k} (unchanged {p = p} {rest = rest} {rest' = rest'} c m e f) =
      subst (λ q. k + ahead n q rest' ≤ (n + 6) * length program + 2 * n) (sym e)
        (subst (λ r. k + ahead n p r ≤ (n + 6) * length program + 2 * n) (sym f)
          (Counted-bounded program c))

  differs :
      {p q : ThreadPool T} {rest rest' : List (Request T)}
      → ahead n q rest' < ahead n p rest
      → q ≡ p
      → rest' ≡ rest
      → ⊥
  differs {q = q} {rest = rest} less e f =
      let same = ap (ahead n q) f ∙ ap (λ r. ahead n r rest) e in absurd (omega (arith, less))

  -- With `n` workers, at least one, and fewer than 2^64 tasks, however the moves of the runner and
  -- the workers are interleaved: at most n + 6 moves for each call (a call for each task, the
  -- shutdown and the destructor) and 2 more for each worker change anything (the others look at a
  -- queue that is not yet empty); and as long as the runner has not made all its calls and come
  -- back from the last, some move changes something. So only a main thread that looks for ever
  -- while no worker goes on does not return.
  pub session_ends :
      {p : ThreadPool T} {rest : List (Request T)} {k : ℕ} (tasks : List T)
      → 0 < n
      → length tasks < size_mod
      → Counted (main_thread_pool tasks) k p rest
      → (k ≤ (n + 6) * (length tasks + 2) + 2 * n)
        × (((rest ≡ []) × (p.callers 0 ≡ outside))
            ⊎ ((q : ThreadPool T) × (rest' : List (Request T)) × Move p rest q rest'
                × (¬ ((q ≡ p) × (rest' ≡ rest)))))
  session_ends {p} {rest} tasks pos small c = (
    omega (
      arith,
      Counted-bounded (main_thread_pool tasks) c,
      ap (λ calls. (n + 6) * calls) (length-main_thread_pool tasks),
    ),
    elim (session-near n tasks pos small (Counted-Session c)).1 [
      | inl back ↦ inl back
      | inr (q, rest', m, less) ↦ inr (q, rest', m, λ same. differs less same.0 same.1)
    ],
  )

-- ===== src/Runners/Session/Returns.antt =====
-- A runner of ThreadPoolBenchmark/main.cpp that uses the program's own pool can always come to its end:
-- no wait of the main thread, for the queue to be empty or for a worker to leave its loop, is for ever.
use thread_pool_backtesting.Base.{
  ℕ, zero, suc, ◌<◌, ◌≡◌, refl, subst, ◌⊎◌, inl, inr, List, [], arith, length, size_mod,
}
use thread_pool_backtesting.Pool.{ThreadPool, Request, outside}
use thread_pool_backtesting.Pool.Conservation.{Reach-Conserved}
use thread_pool_backtesting.Pool.Protocol.{Reach-Orderly}
use thread_pool_backtesting.Runners.{main_thread_pool}
use thread_pool_backtesting.Runners.Session.{Move, Session, moved, Session-Reach}
use thread_pool_backtesting.Runners.Session.Nearer.{ahead, Nearer, session-Nearer}
use thread_pool_backtesting.Runners.Session.Result.{Session-Progress, Session-Solo}

module _ {T : Type 0} (n : ℕ) where
  -- A sequence of moves.
  data Leads : ThreadPool T → List (Request T) → ThreadPool T → List (Request T) → Type 0 where
    there : (p : ThreadPool T) (rest : List (Request T)) → Leads p rest p rest
    onward :
        {p q r : ThreadPool T} {rest rest' rest'' : List (Request T)}
        → Move p rest q rest'
        → Leads q rest' r rest''
        → Leads p rest r rest''

  abbrev Returns : ThreadPool T → List (Request T) → Type 0
  Returns p rest = (q : ThreadPool T) × Leads p rest q [] × (q.callers 0 ≡ outside)

  pub session-near :
      {p : ThreadPool T} {rest : List (Request T)} (tasks : List T)
      → 0 < n
      → length tasks < size_mod
      → Session n (main_thread_pool tasks) p rest
      → (p.current_threads ≡ n) × (((rest ≡ []) × (p.callers 0 ≡ outside)) ⊎ Nearer n p rest)
  session-near {p} {rest} tasks pos small r =
      let solo = Session-Solo small r (Session-Progress small r) in
      let conserved = Reach-Conserved (λ _. 0) (Session-Reach r) in
      (
        conserved.threads,
        session-Nearer n p rest (p.callers 0) pos conserved.threads refl solo.place solo
            (Reach-Orderly (Session-Reach r)) (Session-Progress small r),
      )

  with_fuel :
      (tasks : List T) (fuel : ℕ) {p : ThreadPool T} {rest : List (Request T)}
      → ahead n p rest < fuel
      → 0 < n
      → length tasks < size_mod
      → Session n (main_thread_pool tasks) p rest
      → Returns p rest
  with_fuel tasks zero f pos small r = absurd (omega arith)
  with_fuel tasks (suc fuel) {p} {rest} f pos small r = elim (session-near tasks pos small r).1 [
    | inl (e, out) ↦ (p, subst (Leads p rest p) e (there p rest), out)
    | inr (q, rest', m, less) ↦
        let (end, l, out) = with_fuel tasks fuel (omega (arith, less)) pos small (moved r m) in
        (end, onward m l, out)
  ]

  -- With at least one worker and fewer than 2^64 tasks, from every state that the runner and the
  -- workers can get to there is a sequence of their moves after which the runner has made all its
  -- calls and is back from the last.
  session_returns :
      {p : ThreadPool T} {rest : List (Request T)} (tasks : List T)
      → 0 < n
      → length tasks < size_mod
      → Session n (main_thread_pool tasks) p rest
      → (q : ThreadPool T) × Leads p rest q [] × (q.callers 0 ≡ outside)
  session_returns {p} {rest} tasks pos small r =
      with_fuel tasks (suc (ahead n p rest)) (omega arith) pos small r

-- ===== src/Runners/Dispatch.antt =====
-- oneTBB_Strategy_Dispatch of ThreadPoolBenchmark/main.cpp: a wrapper for each vector of tasks, one call
-- of tryEnqueue, and no shutdown. The buffers of the streamed strategies outlive the wrapper.
use thread_pool_backtesting.Base.{
  ℕ, ◌+◌, ◌<◌, ◌≡◌, refl, true, Bool, Option, some, List, [], ◌∷◌, ◌++◌, arith, length, weigh,
  weigh-append, size_mod,
}
use thread_pool_backtesting.Ranges.{◌>>=◌}
use thread_pool_backtesting.Tbb.{Tbb, IsTbb}
use thread_pool_backtesting.Wrapper.{Wrapper, Strategy, construct, try_enqueue}
use thread_pool_backtesting.Wrapper.Bulk.{IsBulk, bulk_runs_each_once}
use thread_pool_backtesting.Wrapper.Streamed.{Streamed}

module _ {T : Type 0} where
  -- A new wrapper with no limit, on a thread whose buffers are those in `s`.
  unfoldable pub fresh_wrapper : Wrapper T → Wrapper T
  unfolding construct
  fresh_wrapper s = construct 0 s.streamed_buffer s.streamed_affinity_buffer s.flush_buffer

  -- What is left when the runner returns: the thread's buffers, and what has run by then.
  abbrev pub returned_from : Wrapper T → Wrapper T × Bool → Wrapper T
  returned_from s (s', accepted) = record s' { ran = s.ran ++ s'.ran }

  module _ (tbb : Tbb) (strategy : Strategy) where
    unfoldable pub strategy_dispatch : Wrapper T → List T → Option (Wrapper T)
    strategy_dispatch s tasks = do
      result ← try_enqueue tbb (fresh_wrapper s) tasks strategy
      some (returned_from s result)

    -- The runner called for one vector after the other, as the sequential suites call it.
    unfoldable pub dispatch_each : Wrapper T → List (List T) → Option (Wrapper T)
    dispatch_each s [] = some s
    dispatch_each s (tasks ∷ calls) = do s' ← strategy_dispatch s tasks; dispatch_each s' calls

  abbrev pub count_all : List (List T) → ℕ
  count_all calls = weigh (λ tasks. length tasks) calls

  module _ (tbb : Tbb) (law : IsTbb tbb) where
    bulk_call :
        (strategy : Strategy) (w : T → ℕ) (s : Wrapper T) (tasks : List T)
        → IsBulk strategy
        → length tasks < size_mod
        → (s' : Wrapper T) × (strategy_dispatch tbb strategy s tasks ≡ some s')
          × (weigh w s'.ran ≡ weigh w s.ran + weigh w tasks)
    unfolding strategy_dispatch fresh_wrapper construct
    bulk_call strategy w s tasks b n =
        let (s', e, k, _, _, _, _) =
          bulk_runs_each_once tbb law w (fresh_wrapper s) tasks strategy b refl (omega arith) n in
        (returned_from s (s', true), rw e refl, omega (arith, weigh-append w s.ran s'.ran, k))

    abbrev pub AllBelowSize : List (List T) → Type 0
    AllBelowSize [] = Unit {0}
    AllBelowSize (tasks ∷ calls) = (length tasks < size_mod) × AllBelowSize calls

    -- With any other strategy each task of each vector (of fewer than 2^64) has run exactly once when the
    -- last call returns (the weight `w` is arbitrary).
    pub bulk_dispatch_runs_each_once :
        (strategy : Strategy) (w : T → ℕ) (s : Wrapper T) (calls : List (List T))
        → IsBulk strategy
        → AllBelowSize calls
        → (s' : Wrapper T) × (dispatch_each tbb strategy s calls ≡ some s')
          × (weigh w s'.ran ≡ weigh w s.ran + weigh (weigh w) calls)
    unfolding dispatch_each
    bulk_dispatch_runs_each_once strategy w s [] b n = (s, refl, omega arith)
    bulk_dispatch_runs_each_once strategy w s (tasks ∷ calls) b n =
        let (s', e, k) = bulk_call strategy w s tasks b n.0 in
        let (s'', f, l) = bulk_dispatch_runs_each_once strategy w s' calls b n.1 in
        (s'', rw (e, f) refl, omega (arith, k, l))

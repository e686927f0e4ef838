-- ===== src/Runners/Batched/Collected.antt =====
-- main_oneTBB_Batched_ThreadPool of ThreadPoolBenchmark/main.cpp: its batches, and what its pool runs.
use mathlib.Core.List.{append_assoc}
use thread_pool_backtesting.Base.{
  ℕ, ◌+◌, ◌≤◌, ◌<◌, ◌≡◌, refl, ap, ◌∙◌, ◌==◌, List, [], ◌∷◌, ◌++◌, arith, length, length-append,
  weigh, weigh-append, size_mod, Bool-cases, inl, inr,
}
use thread_pool_backtesting.Ranges.{Runs, run_ranges-Runs, sum_from-length, weight_at}
use thread_pool_backtesting.Tbb.{Tbb, IsTbb, auto_partitioner}
use thread_pool_backtesting.Pool.{ThreadPool, exited, outside}
use thread_pool_backtesting.Pool.Conservation.{ran}
use thread_pool_backtesting.Runners.Session.{Session}
use thread_pool_backtesting.Runners.Session.Result.{session_runs_each_once}
use thread_pool_backtesting.Runners.Batched.{
  collect, leftovers, onetbb_batched, exec_batch, executed,
}

module _ {T : Type 0} where
  abbrev pub concat : List (List T) → List T
  concat [] = []
  concat (batch ∷ batches) = batch ++ concat batches

  -- All batches but the last hold `k` tasks, and the last holds at most `k`; none is empty.
  abbrev pub AllFull : ℕ → List (List T) → Type 0
  AllFull k [] = Unit {0}
  AllFull k (batch ∷ []) = (0 < length batch) × (length batch ≤ k)
  AllFull k (batch ∷ next ∷ batches) = (length batch ≡ k) × AllFull k (next ∷ batches)

  concat-leftovers : (batch : List T) → concat (leftovers batch) ≡ batch ++ []
  concat-leftovers [] = refl
  concat-leftovers (t ∷ batch) = refl

  concat-collect : (k : ℕ) (batch tasks : List T) → concat (collect k batch tasks) ≡ batch ++ tasks
  unfolding collect
  concat-collect k batch [] = concat-leftovers batch
  concat-collect k batch (t ∷ ts) = elim (Bool-cases (length (batch ++ t ∷ []) == k)) [
    | inl full ↦ rw full (
        ap (λ xs. (batch ++ t ∷ []) ++ xs) (concat-collect k [] ts)
        ∙ append_assoc batch (t ∷ []) ts)
    | inr more ↦ rw more (concat-collect k (batch ++ t ∷ []) ts ∙ append_assoc batch (t ∷ []) ts)
  ]

  leftovers-AllFull : (k : ℕ) (batch : List T) → length batch < k → AllFull k (leftovers batch)
  leftovers-AllFull k [] h = tt
  leftovers-AllFull k (t ∷ batch) h = (omega arith, omega arith)

  cons-AllFull :
      (k : ℕ) (batch : List T) (batches : List (List T))
      → 0 < k
      → length batch ≡ k
      → AllFull k batches
      → AllFull k (batch ∷ batches)
  cons-AllFull k batch [] pos e h = (omega arith, omega arith)
  cons-AllFull k batch (next ∷ batches) pos e h = (e, h)

  collect-AllFull :
      (k : ℕ) (batch tasks : List T) → length batch < k → AllFull k (collect k batch tasks)
  unfolding collect
  collect-AllFull k batch [] h = leftovers-AllFull k batch h
  collect-AllFull k batch (t ∷ ts) h = elim (Bool-cases (length (batch ++ t ∷ []) == k)) [
    | inl full ↦ rw full (
        cons-AllFull k (batch ++ t ∷ []) (collect k [] ts) (omega arith) (ground arith)
          (collect-AllFull k [] ts (omega arith)))
    | inr more ↦
        rw more
          (collect-AllFull k (batch ++ t ∷ []) ts (ground (arith, length-append batch (t ∷ []))))
  ]

  -- For a batch size of at least 1: the batches put together are the tasks in their order, each batch
  -- but the last holds exactly that many tasks, and the last at least one and at most that many.
  pub collect_batches :
      (k : ℕ) (tasks : List T)
      → 0 < k
      → (concat (collect k [] tasks) ≡ tasks) × AllFull k (collect k [] tasks)
  collect_batches k tasks pos = (concat-collect k [] tasks, collect-AllFull k [] tasks pos)

  weigh-concat :
      (w : T → ℕ) (batches : List (List T)) → weigh (weigh w) batches ≡ weigh w (concat batches)
  weigh-concat w [] = refl
  weigh-concat w (batch ∷ batches) =
      omega (arith, weigh-concat w batches, weigh-append w batch (concat batches))

  length-leftovers : (batch : List T) → length (leftovers batch) ≤ length batch
  length-leftovers [] = omega arith
  length-leftovers (t ∷ batch) = omega arith

  length-collect :
      (k : ℕ) (batch tasks : List T) → length (collect k batch tasks) ≤ length batch + length tasks
  unfolding collect
  length-collect k batch [] = omega (arith, length-leftovers batch)
  length-collect k batch (t ∷ ts) = elim (Bool-cases (length (batch ++ t ∷ []) == k)) [
    | inl full ↦ rw full (omega (arith, length-collect k [] ts))
    | inr more ↦
        rw more (omega (arith, length-append batch (t ∷ []), length-collect k (batch ++ t ∷ []) ts))
  ]

  module _ (tbb : Tbb) (law : IsTbb tbb) (w : T → ℕ) where
    exec_batch-Runs : (batch : List T) → Runs w (exec_batch tbb batch) (weigh w batch)
    unfolding exec_batch
    exec_batch-Runs batch =
        let (ts, e, k) =
          run_ranges-Runs w batch (tbb.parallel_for auto_partitioner (length batch))
            (law.ranges_within auto_partitioner (length batch)) in
        (
          ts,
          e,
          k
              ∙ law.ranges_cover auto_partitioner (length batch) (weight_at w batch)
              ∙ sum_from-length w batch,
        )

    executed-weigh : (batch : List T) → executed tbb w batch ≡ weigh w batch
    executed-weigh batch = let (ts, e, k) = exec_batch-Runs batch in rw e k

    weigh-executed :
        (batches : List (List T)) → weigh (executed tbb w) batches ≡ weigh (weigh w) batches
    weigh-executed [] = refl
    weigh-executed (batch ∷ batches) = omega (arith, executed-weigh batch, weigh-executed batches)

    -- With any batch size, when the runner is back from its shutdown and had fewer than 2^64
    -- tasks: what the batches ran under tbb::parallel_for, which calls its body for each index
    -- once, is each task exactly once (the weight is arbitrary), and each worker has left its
    -- loop.
    pub onetbb_batched_runs_each_once :
        {n : ℕ} {p : ThreadPool (List T)} (batch_size : ℕ) (tasks : List T)
        → Session n (onetbb_batched batch_size tasks) p []
        → p.callers 0 ≡ outside
        → length tasks < size_mod
        → (weigh (ran (executed tbb w)) p.log.finished ≡ weigh w tasks)
          × ((i : ℕ) → i < n → p.workers i ≡ exited)
    unfolding onetbb_batched
    onetbb_batched_runs_each_once batch_size tasks r out small =
        let batches = collect batch_size [] tasks in
        let (all, order, empty, gone) =
          session_runs_each_once (executed tbb w) r out
            (omega (arith, length-collect batch_size [] tasks)) in
        (
          all
              ∙ weigh-executed batches
              ∙ weigh-concat w batches
              ∙ ap (weigh w) (concat-collect batch_size [] tasks),
          gone,
        )

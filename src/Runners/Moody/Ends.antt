-- ===== src/Runners/Moody/Ends.antt =====
-- How long a run of moody_ConcurrentQueue_ThreadPool (ThreadPoolBenchmark/main.cpp) can be, apart from looks that
-- find nothing to do.
use thread_pool_backtesting.Base.{
  ℕ, zero, suc, ◌+◌, ◌*◌, ◌≤◌, ◌<◌, ◌≡◌, refl, sym, ap, ◌∙◌, Bool, Bool-cases, true, false, Option,
  none, some, List, [], ◌∷◌, ◌⊎◌, inl, inr, arith, length, length-append, ltb, update, tally-update,
  tally_mono, tally_constant, weigh-one, size_mod,
}
use thread_pool_backtesting.Runners.Moody.{
  MoodyPc, testing_done, testing_remaining, polling, executing, subtracting, left_loop, MainPc,
  enqueuing, awaiting, setting_done, joining_from, back, Moody, moody_start, take_out, moody_work,
  moody_main, MoodyReach, begun,
}
use thread_pool_backtesting.Runners.Moody.Kept.{weigh-take_out}
use thread_pool_backtesting.Runners.Moody.Joining.{is_past}
use thread_pool_backtesting.Runners.Moody.Settled.{Settled, reach-Settled}
use thread_pool_backtesting.Runners.Moody.Flagged.{has_set, has_seen, Flagged, reach-Flagged}
use thread_pool_backtesting.Runners.Moody.Returns.{moody-Nearer, step-MoodyReach}
use thread_pool_backtesting.Runners.Moody.Nearer.{
  rank, rank-true-le, ahead, MoodyStep, by_worker, by_main,
}

module _ {T : Type 0} (n : ℕ) (tasks : List T) where
  -- A look that finds nothing to do: of the main thread at tasks that are left, or of a worker at a queue where
  -- it finds none, while the flag is not set.
  pub data Idle (s s' : Moody T) : Type 0 where
    main_looks : s' ≡ s → Idle s s'
    worker_looks :
        (i : ℕ)
        → i < n
        → s.done ≡ false
        → s.workers i ≡ polling
        → s' ≡ record s { workers = update s.workers i testing_done }
        → Idle s s'

  -- The states that the runner and its workers can get to, with the number of their pieces and of those that
  -- are such looks.
  pub data Counted : (pieces looks : ℕ) → Moody T → Type 0 where
    fresh : Counted zero zero (moody_start tasks)
    goes :
        {pieces looks : ℕ} {s s' : Moody T}
        → Counted pieces looks s
        → MoodyStep n s s'
        → ¬ Idle s s'
        → Counted (suc pieces) looks s'
    looks_on :
        {pieces looks : ℕ} {s s' : Moody T}
        → Counted pieces looks s
        → MoodyStep n s s'
        → Idle s s'
        → Counted (suc pieces) (suc looks) s'

  abbrev Either : Moody T → Moody T → Type 0
  Either s s' = (ahead n s' < ahead n s) ⊎ Idle s s'

  polls-Either :
      {s' : Moody T} (s : Moody T) (i : ℕ) (b : Bool)
      → s.done ≡ b
      → i < n
      → s.workers i ≡ polling
      → moody_work s i none ≡ some s'
      → Either s s'
  unfolding moody_work
  polls-Either s i false d lt e h = inr (worker_looks i lt d e (ground arith))
  polls-Either s i true d lt e h =
      inl (ground (arith, tally-update (rank s.done) s.workers n i testing_done))

  takes-Either :
      {s' : Moody T} (s : Moody T) (i k : ℕ) (found : Option (T × List T))
      → take_out k s.queue ≡ found
      → i < n
      → s.workers i ≡ polling
      → moody_work s i (some k) ≡ some s'
      → Either s s'
  unfolding moody_work
  takes-Either s i k none f lt e h = inl (ground arith)
  takes-Either s i k (some (t, rest)) f lt e h =
      let fewer = weigh-take_out (λ _. 1) k s.queue t rest f in
      inl (
        ground (
          arith,
          fewer,
          weigh-one rest,
          weigh-one s.queue,
          tally-update (rank s.done) s.workers n i (executing t),
        ))

  past_of_set : (m : MainPc T) → has_set m ≡ true → is_past m ≡ true
  past_of_set (enqueuing ts) h = cc
  past_of_set awaiting h = cc
  past_of_set setting_done h = cc
  past_of_set (joining_from k) h = refl
  past_of_set back h = refl

  worker-Either :
      {s' : Moody T} (s : Moody T) (i : ℕ) (found : Option ℕ) (pc : MoodyPc T)
      → s.workers i ≡ pc
      → i < n
      → Settled n tasks s
      → Flagged s
      → moody_work s i found ≡ some s'
      → Either s s'
  unfolding moody_work
  worker-Either s i found testing_done e lt v f h = inl (
      ground (
        arith,
        tally-update (rank s.done) s.workers n i testing_remaining,
        tally-update (rank s.done) s.workers n i polling,
      ))
  worker-Either s i found testing_remaining e lt v f h =
      let d = f.seen i (ap has_seen e) in
      let zero_left = v.spent (past_of_set s.main_pc (sym f.flag ∙ d)) in
      inl (ground (arith, d, zero_left, tally-update (rank s.done) s.workers n i left_loop))
  worker-Either s i none polling e lt v f h = polls-Either s i s.done refl lt e h
  worker-Either s i (some k) polling e lt v f h =
      takes-Either s i k (take_out k s.queue) refl lt e h
  worker-Either s i found (executing t) e lt v f h =
      inl (ground (arith, tally-update (rank s.done) s.workers n i subtracting))
  worker-Either s i found subtracting e lt v f h =
      inl (ground (arith, tally-update (rank s.done) s.workers n i polling))
  worker-Either s i found left_loop e lt v f h = inl (ground arith)

  joins-Either :
      {s' : Moody T} (s : Moody T) (k : ℕ) (pc : MoodyPc T)
      → s.main_pc ≡ joining_from k
      → s.workers k ≡ pc
      → moody_main n s ≡ some s'
      → Either s s'
  unfolding moody_main
  joins-Either s k testing_done e g h = inl (ground arith)
  joins-Either s k testing_remaining e g h = inl (ground arith)
  joins-Either s k polling e g h = inl (ground arith)
  joins-Either s k (executing t) e g h = inl (ground arith)
  joins-Either s k subtracting e g h = inl (ground arith)
  joins-Either s k left_loop e g h = inl (ground arith)

  main-Either :
      {s' : Moody T} (s : Moody T) (m : MainPc T)
      → s.main_pc ≡ m
      → Flagged s
      → moody_main n s ≡ some s'
      → Either s s'
  unfolding moody_main
  main-Either s (enqueuing []) e f h = inl (ground arith)
  main-Either s (enqueuing (t ∷ ts)) e f h = inl (ground (arith, length-append s.queue (t ∷ [])))
  main-Either s awaiting e f h = elim (Bool-cases (ltb 0 s.remaining_tasks)) [
    | inl left ↦ inr (main_looks (ground arith))
    | inr over ↦ inl (ground arith)
  ]
  main-Either s setting_done e f h =
      let d = f.flag ∙ ap has_set e in
      inl (ground (arith, d, tally_mono (rank true) (rank false) 3 s.workers n rank-true-le))
  main-Either s (joining_from k) e f h = joins-Either s k (s.workers k) e refl h
  main-Either s back e f h = inl (ground arith)

  Step-Either : {s s' : Moody T} → Settled n tasks s → Flagged s → MoodyStep n s s' → Either s s'
  Step-Either {s} v f (by_worker i found lt h) = worker-Either s i found (s.workers i) refl lt v f h
  Step-Either {s} v f (by_main h) = main-Either s s.main_pc refl f h

  Counted-MoodyReach :
      {pieces looks : ℕ} {s : Moody T} → Counted pieces looks s → MoodyReach n tasks s
  Counted-MoodyReach fresh = begun
  Counted-MoodyReach (goes c step on) = step-MoodyReach n tasks (Counted-MoodyReach c) step
  Counted-MoodyReach (looks_on c step idle) = step-MoodyReach n tasks (Counted-MoodyReach c) step

  -- A look of a worker is made up for by its next test of the flag.
  Idle-ahead :
      {s s' : Moody T} → Idle s s' → (ahead n s ≤ ahead n s') × (ahead n s' ≤ ahead n s + 1)
  Idle-ahead {s} {s'} (main_looks e) =
      let same = ap (ahead n) e in (omega (arith, same), omega (arith, same))
  Idle-ahead {s} {s'} (worker_looks i lt d p e) =
      let same = ap (ahead n) e in
      let shift = tally-update (rank s.done) s.workers n i testing_done in
      (ground (arith, same, shift), ground (arith, same, shift))

  Counted-bounded :
      {pieces looks : ℕ} {s : Moody T}
      → length tasks < size_mod
      → Counted pieces looks s
      → pieces + ahead n s ≤ 5 * (length tasks + n) + 4 + 2 * looks
  Counted-bounded fits fresh = omega (arith, tally_constant (rank {T = T} false) testing_done n)
  Counted-bounded fits (goes c step on) =
      let r = Counted-MoodyReach c in
      elim (Step-Either (reach-Settled n tasks fits r) (reach-Flagged n tasks r) step) [
        | inl less ↦ omega (arith, Counted-bounded fits c, less)
        | inr idle ↦ absurd (on idle)
      ]
  Counted-bounded fits (looks_on c step idle) =
      omega (arith, Counted-bounded fits c, (Idle-ahead idle).1)

  -- With `n` workers, at least one, and fewer than 2^64 tasks, however the runner and the workers
  -- are interleaved: the pieces made are at most 5 for each task and each worker, 4 more, and 2
  -- for each look that found nothing to do (of the main thread at tasks that are left, or of a
  -- worker at a queue where it found none, while the flag is not set); and until the runner has
  -- returned, some piece can be made that is no such look.
  pub moody_ends :
      {pieces looks : ℕ} {s : Moody T}
      → 0 < n
      → length tasks < size_mod
      → Counted pieces looks s
      → (pieces ≤ 5 * (length tasks + n) + 4 + 2 * looks)
        × ((s.main_pc ≡ back) ⊎ ((s' : Moody T) × MoodyStep n s s' × (¬ Idle s s')))
  moody_ends {s = s} pos fits c =
      let r = Counted-MoodyReach c in
      (
        omega (arith, Counted-bounded fits c),
        elim (moody-Nearer n tasks s s.main_pc refl pos (reach-Settled n tasks fits r)
            (reach-Flagged n tasks r)) [
              | inl returned ↦ inl returned
              | inr (s', step, less) ↦
                  inr (s', step, λ idle. absurd (omega (arith, less, (Idle-ahead idle).0)))
            ],
      )

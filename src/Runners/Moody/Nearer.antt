-- ===== src/Runners/Moody/Nearer.antt =====
-- The pieces of moody_ConcurrentQueue_ThreadPool (ThreadPoolBenchmark/main.cpp) that bring its return nearer.
use thread_pool_backtesting.Base.{
  ℕ, suc, ◌+◌, ◌-◌, ◌*◌, ◌<◌, ◌≤◌, ◌≡◌, ◌≢◌, refl, Bool, true, false, Option, none, some, List, [],
  ◌∷◌, ◌++◌, ◌%◌, ◌⊎◌, inl, inr, arith, length, length-append, update, tally, tally-update,
  tally_mono, if◌then◌else◌, size_mod,
}
use thread_pool_backtesting.Runners.Moody.{
  MoodyPc, testing_done, testing_remaining, polling, executing, subtracting, left_loop, MainPc,
  enqueuing, awaiting, setting_done, joining_from, back, Moody, take_out, moody_work, moody_main,
}
use thread_pool_backtesting.Runners.Moody.Kept.{owing}
use thread_pool_backtesting.Runners.Moody.Flagged.{has_seen}

module _ {T : Type 0} where
  -- How many pieces a worker is away from where it can go no further without the main thread.
  abbrev pub rank : (done : Bool) → MoodyPc T → ℕ
  rank false testing_done = 1
  rank false testing_remaining = 0
  rank false polling = 0
  rank false (executing t) = 3
  rank false subtracting = 2
  rank false left_loop = 0
  rank true testing_done = 2
  rank true testing_remaining = 1
  rank true polling = 3
  rank true (executing t) = 5
  rank true subtracting = 4
  rank true left_loop = 0

  pub rank-true-le : (pc : MoodyPc T) → rank true pc ≤ rank false pc + 3
  rank-true-le testing_done = omega arith
  rank-true-le testing_remaining = omega arith
  rank-true-le polling = omega arith
  rank-true-le (executing t) = omega arith
  rank-true-le subtracting = omega arith
  rank-true-le left_loop = omega arith

  -- With `n` workers, each of whom has at most 3 pieces more once the flag is set.
  abbrev pub main_ahead : ℕ → MainPc T → ℕ
  main_ahead n (enqueuing ts) = 5 * length ts + 4 * n + 4
  main_ahead n awaiting = 4 * n + 3
  main_ahead n setting_done = 4 * n + 2
  main_ahead n (joining_from k) = n - k + 1
  main_ahead n back = 0

  abbrev pub ahead : ℕ → Moody T → ℕ
  ahead n s = main_ahead n s.main_pc + 4 * length s.queue + tally (rank s.done) s.workers n

  -- A piece by one of the `n` workers or by the main thread.
  pub data MoodyStep (n : ℕ) (s s' : Moody T) : Type 0 where
    by_worker :
        (i : ℕ) (found : Option ℕ) → i < n → moody_work s i found ≡ some s' → MoodyStep n s s'
    by_main : moody_main n s ≡ some s' → MoodyStep n s s'

  -- A sequence of pieces.
  pub data MoodyLeads (n : ℕ) : Moody T → Moody T → Type 0 where
    there : (s : Moody T) → MoodyLeads n s s
    onward : {s s' s'' : Moody T} → MoodyStep n s s' → MoodyLeads n s' s'' → MoodyLeads n s s''

  abbrev pub Nearer : ℕ → Moody T → Type 0
  Nearer n s = (s' : Moody T) × MoodyStep n s s' × (ahead n s' < ahead n s)

  module _ (n : ℕ) (s : Moody T) (i : ℕ) (lt : i < n) where
    ends_task : (t : T) → s.workers i ≡ executing t → Nearer n s
    unfolding moody_work
    ends_task t e = (
      record s { ran = s.ran ++ t ∷ []; workers = update s.workers i subtracting },
      by_worker i none lt (ground arith),
      ground (arith, tally-update (rank s.done) s.workers n i subtracting),
    )

    subtracts : s.workers i ≡ subtracting → Nearer n s
    unfolding moody_work
    subtracts e = (
      record s {
        remaining_tasks = (s.remaining_tasks + size_mod - 1) % size_mod;
        workers = update s.workers i polling;
      },
      by_worker i none lt (ground arith),
      ground (arith, tally-update (rank s.done) s.workers n i polling),
    )

    tests_done : s.workers i ≡ testing_done → Nearer n s
    unfolding moody_work
    tests_done e = (
      record s { workers = update s.workers i (if s.done then testing_remaining else polling) },
      by_worker i none lt (ground arith),
      ground (
        arith,
        tally-update (rank s.done) s.workers n i testing_remaining,
        tally-update (rank s.done) s.workers n i polling,
      ),
    )

    takes_task : (t : T) (ts : List T) → s.workers i ≡ polling → s.queue ≡ t ∷ ts → Nearer n s
    unfolding moody_work take_out
    takes_task t ts e f = (
      record s { queue = ts; workers = update s.workers i (executing t) },
      by_worker i (some 0) lt (ground arith),
      ground (arith, tally-update (rank s.done) s.workers n i (executing t)),
    )

    takes_first : (ts : List T) → s.queue ≡ ts → s.workers i ≡ polling → 0 < length ts → Nearer n s
    takes_first [] f e h = absurd (omega arith)
    takes_first (t ∷ ts) f e h = takes_task t ts e f

    finds_none : s.done ≡ true → s.workers i ≡ polling → Nearer n s
    unfolding moody_work
    finds_none d e = (
      record s { workers = update s.workers i testing_done },
      by_worker i none lt (ground arith),
      ground (arith, tally-update (rank s.done) s.workers n i testing_done),
    )

    leaves : s.done ≡ true → s.remaining_tasks ≡ 0 → s.workers i ≡ testing_remaining → Nearer n s
    unfolding moody_work
    leaves d z e = (
      record s { workers = update s.workers i left_loop },
      by_worker i none lt (ground arith),
      ground (arith, tally-update (rank s.done) s.workers n i left_loop),
    )

    -- While tasks are left and the flag is not set, a worker that has a task or finds one goes on.
    pub works-Nearer :
        (pc : MoodyPc T)
        → s.workers i ≡ pc
        → has_seen pc ≡ false
        → (0 < length s.queue) ⊎ (0 < owing pc)
        → Nearer n s
    works-Nearer testing_done e blind some_task = tests_done e
    works-Nearer testing_remaining e blind some_task = cc
    works-Nearer polling e blind some_task = elim some_task [
      | inl waits ↦ takes_first s.queue refl e waits
      | inr owes ↦ absurd (omega arith)
    ]
    works-Nearer (executing t) e blind some_task = ends_task t e
    works-Nearer subtracting e blind some_task = subtracts e
    works-Nearer left_loop e blind some_task = cc

    -- Once the flag is set and no task is left, each worker goes on to leave its loop.
    pub stops-Nearer :
        (pc : MoodyPc T)
        → s.workers i ≡ pc
        → s.done ≡ true
        → s.remaining_tasks ≡ 0
        → pc ≢ left_loop
        → Nearer n s
    stops-Nearer testing_done e d z on = tests_done e
    stops-Nearer testing_remaining e d z on = leaves d z e
    stops-Nearer polling e d z on = finds_none d e
    stops-Nearer (executing t) e d z on = ends_task t e
    stops-Nearer subtracting e d z on = subtracts e
    stops-Nearer left_loop e d z on = absurd (on refl)

  module _ (n : ℕ) (s : Moody T) where
    pub enqueues-Nearer : (ts : List T) → s.main_pc ≡ enqueuing ts → Nearer n s
    unfolding moody_main
    enqueues-Nearer [] e = (record s { main_pc = awaiting }, by_main (ground arith), ground arith)
    enqueues-Nearer (t ∷ ts) e = (
      record s { queue = s.queue ++ t ∷ []; main_pc = enqueuing ts },
      by_main (ground arith),
      ground (arith, length-append s.queue (t ∷ [])),
    )

    pub ends_wait : s.main_pc ≡ awaiting → s.remaining_tasks ≡ 0 → Nearer n s
    unfolding moody_main
    ends_wait e z = (record s { main_pc = setting_done }, by_main (ground arith), ground arith)

    pub sets_done : s.main_pc ≡ setting_done → s.done ≡ false → Nearer n s
    unfolding moody_main
    sets_done e d = (
      record s { done = true; main_pc = joining_from 0 },
      by_main (ground arith),
      ground (arith, tally_mono (rank true) (rank false) 3 s.workers n rank-true-le),
    )

    pub joins-Nearer :
        (k : ℕ) → s.main_pc ≡ joining_from k → k < n → s.workers k ≡ left_loop → Nearer n s
    unfolding moody_main
    joins-Nearer k e lt gone =
        (record s { main_pc = joining_from (suc k) }, by_main (ground arith), ground arith)

    pub joins_none : (k : ℕ) → s.main_pc ≡ joining_from k → ¬ k < n → Nearer n s
    unfolding moody_main
    joins_none k e all = (record s { main_pc = back }, by_main (ground arith), ground arith)

-- ===== src/Runners/Moody/Kept.antt =====
-- No task is lost or run twice by moody_ConcurrentQueue_ThreadPool of ThreadPoolBenchmark/main.cpp, and
-- its counter is exact.
use thread_pool_backtesting.Base.{
  ℕ, zero, suc, ◌+◌, ◌<◌, ◌≡◌, refl, Option, none, some, Option-cases, inl, inr, List, [], ◌∷◌,
  arith, weigh, weigh-append, tally, tally-update, size_mod,
}
use thread_pool_backtesting.Runners.Moody.{
  MoodyPc, testing_done, testing_remaining, polling, executing, subtracting, left_loop, MainPc,
  enqueuing, awaiting, setting_done, joining_from, back, Moody, take_out, moody_work, moody_main,
}

module _ {T : Type 0} where
  pub weigh-take_out :
      (w : T → ℕ) (k : ℕ) (ts : List T) (t : T) (rest : List T)
      → take_out k ts ≡ some (t, rest)
      → w t + weigh w rest ≡ weigh w ts
  unfolding take_out
  weigh-take_out w k [] t rest h = cc
  weigh-take_out w zero (u ∷ us) t rest h = ground arith
  weigh-take_out w (suc k) (u ∷ us) t rest h = elim (Option-cases (take_out k us)) [
    | inl stuck ↦ let bad = rw stuck at h in cc
    | inr ((v, others), found) ↦
        let e : ◌≡◌ {A = Option (T × List T)} (some (v, u ∷ others)) (some (t, rest)) =
          rw found at h in
        ground (arith, weigh-take_out w k us v others found)
  ]

  -- The task that a worker has taken and not run, and one that `remainingTasks` still counts.
  abbrev pub taken_by : (T → ℕ) → MoodyPc T → ℕ
  taken_by w testing_done = 0
  taken_by w testing_remaining = 0
  taken_by w polling = 0
  taken_by w (executing t) = w t
  taken_by w subtracting = 0
  taken_by w left_loop = 0

  abbrev pub owing : MoodyPc T → ℕ
  owing testing_done = 0
  owing testing_remaining = 0
  owing polling = 0
  owing (executing t) = 1
  owing subtracting = 1
  owing left_loop = 0

  -- What the main thread has yet to enqueue.
  abbrev pub to_come : MainPc T → List T
  to_come (enqueuing ts) = ts
  to_come awaiting = []
  to_come setting_done = []
  to_come (joining_from k) = []
  to_come back = []

  pub record Kept (w : T → ℕ) (n : ℕ) (tasks : List T) (s : Moody T) : Type 0 where
    pub balance :
        weigh w s.queue
          + tally (taken_by w) s.workers n
          + weigh w s.ran
          + weigh w (to_come s.main_pc)
        ≡ weigh w tasks
    pub owed :
        s.remaining_tasks
        ≡ weigh (λ _. 1) s.queue + tally owing s.workers n + weigh (λ _. 1) (to_come s.main_pc)
    pub small : s.remaining_tasks < size_mod

  pub worker-Kept :
      {s' : Moody T} (w : T → ℕ) (n : ℕ) (tasks : List T) (s : Moody T) (i : ℕ) (found : Option ℕ)
      (pc : MoodyPc T)
      → s.workers i ≡ pc
      → i < n
      → Kept w n tasks s
      → moody_work s i found ≡ some s'
      → Kept w n tasks s'
  unfolding moody_work
  worker-Kept w n tasks s i found testing_done e lt v h = ground (
    arith,
    tally-update (taken_by w) s.workers n i testing_remaining,
    tally-update owing s.workers n i testing_remaining,
    tally-update (taken_by w) s.workers n i polling,
    tally-update owing s.workers n i polling,
  )
  worker-Kept w n tasks s i found testing_remaining e lt v h = ground (
    arith,
    tally-update (taken_by w) s.workers n i polling,
    tally-update owing s.workers n i polling,
    tally-update (taken_by w) s.workers n i left_loop,
    tally-update owing s.workers n i left_loop,
  )
  worker-Kept w n tasks s i none polling e lt v h = ground (
    arith,
    tally-update (taken_by w) s.workers n i testing_done,
    tally-update owing s.workers n i testing_done,
  )
  worker-Kept w n tasks s i (some k) polling e lt v h = elim (Option-cases (take_out k s.queue)) [
    | inl stuck ↦ let bad = rw (e, stuck) at h in cc
    | inr ((t, rest), taken) ↦
        let h' = rw (e, taken) at h in
        ground (
          arith,
          weigh-take_out w k s.queue t rest taken,
          weigh-take_out (λ _. 1) k s.queue t rest taken,
          tally-update (taken_by w) s.workers n i (executing t),
          tally-update owing s.workers n i (executing t),
        )
  ]
  worker-Kept w n tasks s i found (executing t) e lt v h = ground (
    arith,
    tally-update (taken_by w) s.workers n i subtracting,
    tally-update owing s.workers n i subtracting,
    weigh-append w s.ran (t ∷ []),
  )
  worker-Kept w n tasks s i found subtracting e lt v h = ground (
    arith,
    tally-update (taken_by w) s.workers n i polling,
    tally-update owing s.workers n i polling,
  )
  worker-Kept w n tasks s i found left_loop e lt v h = ground arith

  join-Kept :
      {s' : Moody T} (w : T → ℕ) (n : ℕ) (tasks : List T) (s : Moody T) (k : ℕ) (pc : MoodyPc T)
      → s.workers k ≡ pc
      → s.main_pc ≡ joining_from k
      → Kept w n tasks s
      → moody_main n s ≡ some s'
      → Kept w n tasks s'
  unfolding moody_main
  join-Kept w n tasks s k testing_done at e v h = ground arith
  join-Kept w n tasks s k testing_remaining at e v h = ground arith
  join-Kept w n tasks s k polling at e v h = ground arith
  join-Kept w n tasks s k (executing t) at e v h = ground arith
  join-Kept w n tasks s k subtracting at e v h = ground arith
  join-Kept w n tasks s k left_loop at e v h = ground arith

  pub main-Kept :
      {s' : Moody T} (w : T → ℕ) (n : ℕ) (tasks : List T) (s : Moody T) (pc : MainPc T)
      → s.main_pc ≡ pc
      → Kept w n tasks s
      → moody_main n s ≡ some s'
      → Kept w n tasks s'
  unfolding moody_main
  main-Kept w n tasks s (enqueuing []) e v h = ground arith
  main-Kept w n tasks s (enqueuing (t ∷ ts)) e v h =
      ground (arith, weigh-append w s.queue (t ∷ []), weigh-append (λ _. 1) s.queue (t ∷ []))
  main-Kept w n tasks s awaiting e v h = ground arith
  main-Kept w n tasks s setting_done e v h = ground arith
  main-Kept w n tasks s (joining_from k) e v h = join-Kept w n tasks s k (s.workers k) refl e v h
  main-Kept w n tasks s back e v h = ground arith

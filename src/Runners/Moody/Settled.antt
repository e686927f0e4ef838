-- ===== src/Runners/Moody/Settled.antt =====
-- What moody_ConcurrentQueue_ThreadPool of ThreadPoolBenchmark/main.cpp has done when it returns.
use thread_pool_backtesting.Base.{
  ℕ, ◌<◌, ◌≡◌, refl, sym, ap, subst, ◌∙◌, tally_none, score-le-tally, ℕ_discrete, ite, Option-cases,
  inl, inr, true, Option, none, some, List, [], ◌∷◌, arith, length, weigh, update, tally, weigh-one,
  size_mod,
}
use thread_pool_backtesting.Runners.Moody.{
  MoodyPc, testing_done, testing_remaining, polling, executing, subtracting, left_loop, MainPc,
  back, Moody, moody_start, take_out, moody_work, moody_main, MoodyReach, begun, worker_step,
  main_step,
}
use thread_pool_backtesting.Runners.Moody.Kept.{
  taken_by, owing, to_come, Kept, worker-Kept, main-Kept,
}
use thread_pool_backtesting.Runners.Moody.Joining.{is_past, joined, main-spent, main-ended}

module _ {T : Type 0} where
  idle-taken_by : (w : T → ℕ) (pc : MoodyPc T) → owing pc ≡ 0 → taken_by w pc ≡ 0
  idle-taken_by w testing_done h = refl
  idle-taken_by w testing_remaining h = refl
  idle-taken_by w polling h = refl
  idle-taken_by w (executing t) h = ground arith
  idle-taken_by w subtracting h = refl
  idle-taken_by w left_loop h = refl

  idle-tally :
      (w : T → ℕ) (n : ℕ) (workers : ℕ → MoodyPc T)
      → tally owing workers n ≡ 0
      → tally (taken_by w) workers n ≡ 0
  idle-tally w n workers h =
      tally_none (taken_by w) workers n
        (λ i lt. idle-taken_by w (workers i) (omega (arith, score-le-tally owing workers n i lt)))

  weigh-empty : (w : T → ℕ) (ts : List T) → weigh (λ _. 1) ts ≡ 0 → weigh w ts ≡ 0
  weigh-empty w [] h = refl
  weigh-empty w (t ∷ ts) h = ground arith

  pub record Settled (n : ℕ) (tasks : List T) (s : Moody T) : Type 0 where
    pub kept : (w : T → ℕ) → Kept w n tasks s
    pub spent : is_past s.main_pc ≡ true → s.remaining_tasks ≡ 0
    pub ended : (i : ℕ) → i < joined n s.main_pc → s.workers i ≡ left_loop

  update-left_loop :
      (workers : ℕ → MoodyPc T) (i j : ℕ) (pc : MoodyPc T)
      → ¬ workers i ≡ left_loop
      → workers j ≡ left_loop
      → update workers i pc j ≡ left_loop
  update-left_loop workers i j pc going gone =
      elim (ℕ_discrete i j) as (λ r. ite r pc (workers j) ≡ left_loop) [
        | yes same ↦ absurd (going (ap workers same ∙ gone))
        | no apart ↦ gone
      ]

  -- What a piece of a worker leaves as it is.
  record Apart (s s' : Moody T) (i : ℕ) : Type 0 where
    pub same_main : s'.main_pc ≡ s.main_pc
    pub same_remaining : owing (s.workers i) ≡ 0 → s'.remaining_tasks ≡ s.remaining_tasks
    pub same_left : (j : ℕ) → s.workers j ≡ left_loop → s'.workers j ≡ left_loop

  worker-Apart :
      {s' : Moody T} (s : Moody T) (i : ℕ) (found : Option ℕ) (pc : MoodyPc T)
      → s.workers i ≡ pc
      → moody_work s i found ≡ some s'
      → Apart s s' i
  unfolding moody_work
  worker-Apart s i found testing_done e h = record {
    same_main = ground arith;
    same_remaining = λ idle. ground arith;
    same_left = λ j gone. ground (
      arith,
      update-left_loop s.workers i j testing_remaining (λ g. ground arith) gone,
      update-left_loop s.workers i j polling (λ g. ground arith) gone,
    );
  }
  worker-Apart s i found testing_remaining e h = record {
    same_main = ground arith;
    same_remaining = λ idle. ground arith;
    same_left = λ j gone. ground (
      arith,
      update-left_loop s.workers i j polling (λ g. ground arith) gone,
      update-left_loop s.workers i j left_loop (λ g. ground arith) gone,
    );
  }
  worker-Apart s i none polling e h = record {
    same_main = ground arith;
    same_remaining = λ idle. ground arith;
    same_left = λ j gone.
        ground (arith, update-left_loop s.workers i j testing_done (λ g. ground arith) gone);
  }
  worker-Apart s i (some k) polling e h = elim (Option-cases (take_out k s.queue)) [
    | inl stuck ↦ let bad = rw (e, stuck) at h in cc
    | inr ((t, rest), taken) ↦
        let h' = rw (e, taken) at h in
        record {
          same_main = ground arith;
          same_remaining = λ idle. ground arith;
          same_left = λ j gone.
              ground (arith, update-left_loop s.workers i j (executing t) (λ g. ground arith) gone);
        }
  ]
  worker-Apart s i found (executing t) e h = record {
    same_main = ground arith;
    same_remaining = λ idle. ground arith;
    same_left = λ j gone.
        ground (arith, update-left_loop s.workers i j subtracting (λ g. ground arith) gone);
  }
  worker-Apart s i found subtracting e h = record {
    same_main = ground arith;
    same_remaining = λ idle. ground arith;
    same_left =
        λ j gone. ground (arith, update-left_loop s.workers i j polling (λ g. ground arith) gone);
  }
  worker-Apart s i found left_loop e h = ground arith

  none_owing :
      (n : ℕ) (tasks : List T) (s : Moody T)
      → Settled n tasks s
      → s.remaining_tasks ≡ 0
      → tally owing s.workers n ≡ 0
  none_owing n tasks s v spent = omega (arith, (v.kept (λ _. 1)).owed)

  worker-Settled :
      {s' : Moody T} (n : ℕ) (tasks : List T) (s : Moody T) (i : ℕ) (found : Option ℕ)
      → Settled n tasks s
      → i < n
      → moody_work s i found ≡ some s'
      → Settled n tasks s'
  worker-Settled n tasks s i found v lt h =
      let apart = worker-Apart s i found (s.workers i) refl h in
      record {
        kept = λ w. worker-Kept w n tasks s i found (s.workers i) refl lt (v.kept w) h;
        spent = λ past.
            let spent = v.spent (ap is_past (sym apart.same_main) ∙ past) in
            let idle = none_owing n tasks s v spent in
            apart.same_remaining (omega (arith, score-le-tally owing s.workers n i lt)) ∙ spent;
        ended = λ j below.
            apart.same_left j (v.ended j (subst (λ m. j < joined n m) apart.same_main below));
      }

  main-Settled :
      {s' : Moody T} (n : ℕ) (tasks : List T) (s : Moody T) (pc : MainPc T)
      → s.main_pc ≡ pc
      → Settled n tasks s
      → moody_main n s ≡ some s'
      → Settled n tasks s'
  main-Settled n tasks s pc e v h = record {
    kept = λ w. main-Kept w n tasks s pc e (v.kept w) h;
    spent = main-spent n s pc e (λ past. v.spent (ap is_past e ∙ past)) h;
    ended =
        main-ended n s pc e (λ j below. v.ended j (subst (λ m. j < joined n m) (sym e) below)) h;
  }

  moody_start-Settled :
      (n : ℕ) (tasks : List T) → length tasks < size_mod → Settled n tasks (moody_start tasks)
  moody_start-Settled n tasks fits = record {
    kept = λ w. record {
      balance = omega (arith, tally_none (taken_by w) (λ _. testing_done) n (λ i lt. refl));
      owed = omega (arith, weigh-one tasks, tally_none owing (λ _. testing_done) n (λ i lt. refl));
      small = omega arith;
    };
    spent = λ past. cc;
    ended = λ j below. ground arith;
  }

  pub reach-Settled :
      (n : ℕ) (tasks : List T) {s : Moody T}
      → length tasks < size_mod
      → MoodyReach n tasks s
      → Settled n tasks s
  reach-Settled n tasks fits begun = moody_start-Settled n tasks fits
  reach-Settled n tasks fits (worker_step {s} i found before lt h) =
      worker-Settled n tasks s i found (reach-Settled n tasks fits before) lt h
  reach-Settled n tasks fits (main_step {s} before h) =
      main-Settled n tasks s s.main_pc refl (reach-Settled n tasks fits before) h

  -- When moody_ConcurrentQueue_ThreadPool returns, whichever elements try_dequeue gives and
  -- however its `n` workers interleave, for fewer than 2^64 tasks: each task has run exactly once,
  -- the counter is 0 and each worker has left its loop.
  pub moody_runs_each_once :
      (n : ℕ) (tasks : List T) (s : Moody T)
      → length tasks < size_mod
      → MoodyReach n tasks s
      → s.main_pc ≡ back
      → ((w : T → ℕ) → weigh w s.ran ≡ weigh w tasks)
        × s.remaining_tasks ≡ 0
        × ((i : ℕ) → i < n → s.workers i ≡ left_loop)
  moody_runs_each_once n tasks s fits reach returned =
      let v = reach-Settled n tasks fits reach in
      let spent = v.spent (ap is_past returned) in
      (
        λ w. omega (
          arith,
          (v.kept w).balance,
          ap (λ m. weigh w (to_come m)) returned,
          weigh-empty w s.queue (omega (arith, (v.kept w).owed)),
          idle-tally w n s.workers (none_owing n tasks s v spent),
        ),
        spent,
        λ i lt. v.ended i (subst (λ m. i < joined n m) (sym returned) lt),
      )

-- ===== src/Runners/Moody/Flagged.antt =====
-- The flag `done` of moody_ConcurrentQueue_ThreadPool in ThreadPoolBenchmark/main.cpp: when it is set, and
-- which workers have seen it.
use thread_pool_backtesting.Base.{
  ℕ, ◌≡◌, refl, sym, ap, ◌∙◌, Bool-cases, Bool, true, false, Option, Option-cases, inl, inr, none,
  some, List, [], ◌∷◌, arith, update, update-all, ltb, if◌then◌else◌,
}
use thread_pool_backtesting.Runners.Moody.{
  MoodyPc, testing_done, testing_remaining, polling, executing, subtracting, left_loop, MainPc,
  enqueuing, awaiting, setting_done, joining_from, back, Moody, take_out, moody_work, moody_main,
  MoodyReach, begun, worker_step, main_step,
}
use thread_pool_backtesting.Runners.Moody.Joining.{main-workers}

module _ {T : Type 0} where
  -- Whether the main thread has set the flag.
  abbrev pub has_set : MainPc T → Bool
  has_set (enqueuing ts) = false
  has_set awaiting = false
  has_set setting_done = false
  has_set (joining_from k) = true
  has_set back = true

  -- Whether a worker has found the flag set since it last polled.
  abbrev pub has_seen : MoodyPc T → Bool
  has_seen testing_done = false
  has_seen testing_remaining = true
  has_seen polling = false
  has_seen (executing t) = false
  has_seen subtracting = false
  has_seen left_loop = true

  pub record Flagged (s : Moody T) : Type 0 where
    pub flag : s.done ≡ has_set s.main_pc
    pub seen : (i : ℕ) → has_seen (s.workers i) ≡ true → s.done ≡ true

  -- What a piece of worker `i` does to the threads, from `pc` on.
  record Turned (s s' : Moody T) (i : ℕ) (pc pc' : MoodyPc T) : Type 0 where
    pub turned : s'.workers ≡ update s.workers i pc'
    pub same_done : s'.done ≡ s.done
    pub same_main : s'.main_pc ≡ s.main_pc
    pub not_yet : has_seen pc ≡ false → s.done ≡ false → has_seen pc' ≡ false

  worker-turns :
      {s' : Moody T} (s : Moody T) (i : ℕ) (found : Option ℕ) (pc : MoodyPc T)
      → s.workers i ≡ pc
      → moody_work s i found ≡ some s'
      → (pc' : MoodyPc T) × Turned s s' i pc pc'
  unfolding moody_work
  worker-turns s i found testing_done e h =
      (if s.done then testing_remaining else polling, ground arith)
  worker-turns s i found testing_remaining e h =
      (if ltb 0 s.remaining_tasks then polling else left_loop, ground arith)
  worker-turns s i none polling e h = (testing_done, ground arith)
  worker-turns s i (some k) polling e h = elim (Option-cases (take_out k s.queue)) [
    | inl stuck ↦ let bad = rw (e, stuck) at h in cc
    | inr ((t, rest), taken) ↦ let h' = rw (e, taken) at h in (executing t, ground arith)
  ]
  worker-turns s i found (executing t) e h = (subtracting, ground arith)
  worker-turns s i found subtracting e h = (polling, ground arith)
  worker-turns s i found left_loop e h = (left_loop, ground arith)

  worker-Flagged :
      {s' : Moody T} (s : Moody T) (i : ℕ) (found : Option ℕ)
      → Flagged s
      → moody_work s i found ≡ some s'
      → Flagged s'
  worker-Flagged s i found v h =
      let (pc', t) = worker-turns s i found (s.workers i) refl h in
      let new : has_seen pc' ≡ true → s.done ≡ true = λ seen. elim (Bool-cases s.done) [
        | inl set ↦ set
        | inr open_still ↦ elim (Bool-cases (has_seen (s.workers i))) [
          | inl before ↦ v.seen i before
          | inr blind ↦ let never = t.not_yet blind open_still in cc
        ]
      ] in
      record {
        flag = t.same_done ∙ v.flag ∙ ap has_set (sym t.same_main);
        seen = λ j seen.
            t.same_done
            ∙ update-all (λ q. has_seen q ≡ true → s.done ≡ true) s.workers i pc' v.seen new j
                (ap (λ ws. has_seen (ws j)) (sym t.turned) ∙ seen);
      }

  join-Flagged :
      {s' : Moody T} (n : ℕ) (s : Moody T) (k : ℕ) (pc : MoodyPc T)
      → s.workers k ≡ pc
      → s.main_pc ≡ joining_from k
      → s.done ≡ true
      → moody_main n s ≡ some s'
      → (s'.done ≡ true) × (has_set s'.main_pc ≡ true)
  unfolding moody_main
  join-Flagged n s k testing_done at e d h = ground arith
  join-Flagged n s k testing_remaining at e d h = ground arith
  join-Flagged n s k polling at e d h = ground arith
  join-Flagged n s k (executing t) at e d h = ground arith
  join-Flagged n s k subtracting at e d h = ground arith
  join-Flagged n s k left_loop at e d h = ground arith

  main-flag :
      {s' : Moody T} (n : ℕ) (s : Moody T) (pc : MainPc T)
      → s.main_pc ≡ pc
      → s.done ≡ has_set pc
      → moody_main n s ≡ some s'
      → (s'.done ≡ has_set s'.main_pc) × (s.done ≡ true → s'.done ≡ true)
  unfolding moody_main
  main-flag n s (enqueuing []) e d h = (ground arith, λ set. ground arith)
  main-flag n s (enqueuing (t ∷ ts)) e d h = (ground arith, λ set. ground arith)
  main-flag n s awaiting e d h = (ground arith, λ set. ground arith)
  main-flag n s setting_done e d h = (ground arith, λ set. ground arith)
  main-flag n s (joining_from k) e d h =
      let (set, past) = join-Flagged n s k (s.workers k) refl e d h in (set ∙ sym past, λ _. set)
  main-flag n s back e d h = (ground arith, λ set. ground arith)

  main-Flagged :
      {s' : Moody T} (n : ℕ) (s : Moody T) → Flagged s → moody_main n s ≡ some s' → Flagged s'
  main-Flagged n s v h =
      let (flag, set) = main-flag n s s.main_pc refl v.flag h in
      record {
        flag = flag;
        seen = λ j seen. set (
            v.seen j (ap (λ ws. has_seen (ws j)) (sym (main-workers n s s.main_pc refl h)) ∙ seen));
      }

  pub reach-Flagged : (n : ℕ) (tasks : List T) {s : Moody T} → MoodyReach n tasks s → Flagged s
  reach-Flagged n tasks begun = record { flag = refl; seen = λ i h. cc }
  reach-Flagged n tasks (worker_step {s} i found before lt h) =
      worker-Flagged s i found (reach-Flagged n tasks before) h
  reach-Flagged n tasks (main_step {s} before h) = main-Flagged n s (reach-Flagged n tasks before) h

-- ===== src/Runners/Moody/Returns.antt =====
-- That moody_ConcurrentQueue_ThreadPool of ThreadPoolBenchmark/main.cpp can always go on to its return.
use thread_pool_backtesting.Base.{
  ℕ, zero, suc, ◌<◌, ◌≡◌, ◌≢◌, refl, ap, ◌∙◌, Bool-cases, false, List, ◌⊎◌, inl, inr, arith, length,
  weigh, weigh-one, some_of_tally, dec_lt, size_mod,
}
use thread_pool_backtesting.Runners.Moody.{
  MoodyPc, testing_done, testing_remaining, polling, executing, subtracting, left_loop, MainPc,
  enqueuing, awaiting, setting_done, joining_from, back, Moody, MoodyReach, worker_step, main_step,
}
use thread_pool_backtesting.Runners.Moody.Kept.{owing, to_come}
use thread_pool_backtesting.Runners.Moody.Joining.{is_past}
use thread_pool_backtesting.Runners.Moody.Settled.{Settled, reach-Settled}
use thread_pool_backtesting.Runners.Moody.Flagged.{has_set, has_seen, Flagged, reach-Flagged}
use thread_pool_backtesting.Runners.Moody.Nearer.{
  ahead, MoodyStep, MoodyLeads, there, onward, by_worker, by_main, Nearer, works-Nearer,
  stops-Nearer, enqueues-Nearer, ends_wait, sets_done, joins-Nearer, joins_none,
}

module _ {T : Type 0} (n : ℕ) (tasks : List T) where
  blind : (s : Moody T) (i : ℕ) → Flagged s → s.done ≡ false → has_seen (s.workers i) ≡ false
  blind s i v d = elim (Bool-cases (has_seen (s.workers i))) [
    | inr not_seen ↦ not_seen
    | inl sees ↦ let set = v.seen i sees in cc
  ]

  await-Nearer :
      (s : Moody T) → 0 < n → s.main_pc ≡ awaiting → Settled n tasks s → Flagged s → Nearer n s
  await-Nearer s pos e v f =
      let d : s.done ≡ false = f.flag ∙ ap has_set e in
      let owed = (v.kept (λ _. 1)).owed in
      let none_to_come = ap (λ m. weigh (λ _. 1) (to_come m)) e in
      let count = weigh-one s.queue in
      elim (dec_lt 0 s.remaining_tasks) [
        | no spent ↦ ends_wait n s e (omega arith)
        | yes left ↦ elim (dec_lt 0 (length s.queue)) [
          | yes waits ↦ works-Nearer n s 0 pos (s.workers 0) refl (blind s 0 f d) (inl waits)
          | no drained ↦
              let (i, lt, owes) =
                some_of_tally owing s.workers n (omega (arith, owed, none_to_come, count)) in
              works-Nearer n s i lt (s.workers i) refl (blind s i f d) (inr owes)
        ]
      ]

  left_or_not : (pc : MoodyPc T) → (pc ≡ left_loop) ⊎ (pc ≢ left_loop)
  left_or_not testing_done = inr (λ e. cc)
  left_or_not testing_remaining = inr (λ e. cc)
  left_or_not polling = inr (λ e. cc)
  left_or_not (executing t) = inr (λ e. cc)
  left_or_not subtracting = inr (λ e. cc)
  left_or_not left_loop = inl refl

  join-Nearer :
      (s : Moody T) (k : ℕ)
      → s.main_pc ≡ joining_from k
      → Settled n tasks s
      → Flagged s
      → Nearer n s
  join-Nearer s k e v f = elim (dec_lt k n) [
    | no all ↦ joins_none n s k e all
    | yes lt ↦ elim (left_or_not (s.workers k)) [
      | inl gone ↦ joins-Nearer n s k e lt gone
      | inr on ↦
          stops-Nearer n s k lt (s.workers k) refl (f.flag ∙ ap has_set e) (v.spent (ap is_past e))
            on
    ]
  ]

  pub moody-Nearer :
      (s : Moody T) (m : MainPc T)
      → s.main_pc ≡ m
      → 0 < n
      → Settled n tasks s
      → Flagged s
      → (m ≡ back) ⊎ Nearer n s
  moody-Nearer s (enqueuing ts) e pos v f = inr (enqueues-Nearer n s ts e)
  moody-Nearer s awaiting e pos v f = inr (await-Nearer s pos e v f)
  moody-Nearer s setting_done e pos v f = inr (sets_done n s e (f.flag ∙ ap has_set e))
  moody-Nearer s (joining_from k) e pos v f = inr (join-Nearer s k e v f)
  moody-Nearer s back e pos v f = inl refl

  pub step-MoodyReach :
      {s s' : Moody T} → MoodyReach n tasks s → MoodyStep n s s' → MoodyReach n tasks s'
  step-MoodyReach before (by_worker i found lt h) = worker_step i found before lt h
  step-MoodyReach before (by_main h) = main_step before h

  with_fuel :
      (fuel : ℕ) (s : Moody T)
      → ahead n s < fuel
      → 0 < n
      → length tasks < size_mod
      → MoodyReach n tasks s
      → (end : Moody T) × MoodyLeads n s end × (end.main_pc ≡ back)
  with_fuel zero s enough pos fits r = absurd (omega arith)
  with_fuel (suc fuel) s enough pos fits r =
      elim (moody-Nearer s s.main_pc refl pos (reach-Settled n tasks fits r)
        (reach-Flagged n tasks r)) [
          | inl returned ↦ (s, there s, returned)
          | inr (s', step, less) ↦
              let (end, rest, returned) =
                with_fuel fuel s' (omega (arith, less)) pos fits (step-MoodyReach r step) in
              (end, onward step rest, returned)
        ]

  -- With at least one worker and fewer than 2^64 tasks, from every state that
  -- moody_ConcurrentQueue_ThreadPool and its workers can get to there is a sequence of their
  -- pieces after which the runner has returned.
  moody_returns :
      (s : Moody T)
      → 0 < n
      → length tasks < size_mod
      → MoodyReach n tasks s
      → (end : Moody T) × MoodyLeads n s end × (end.main_pc ≡ back)
  moody_returns s pos fits r = with_fuel (suc (ahead n s)) s (omega arith) pos fits r

-- ===== src/Profiler/Logger/Metrics.antt =====
-- What the metrics file of ThreadPoolBenchmark/ThreadProfiler.h holds when the profiler is destroyed.
use thread_pool_backtesting.Base.{
  ℕ, zero, suc, ◌<◌, ◌≤◌, ◌≡◌, ◌≢◌, refl, sym, ap, ◌∙◌, ◌⊎◌, inl, inr, true, some, [], ◌∷◌, arith,
  size_mod,
}
use thread_pool_backtesting.Harness.Doubles.{Double}
use thread_pool_backtesting.Profiler.{
  ThreadProfiler, new_profiler, increment_tasks_submitted, increment_tasks_executed, take_snapshot,
}
use thread_pool_backtesting.Profiler.Logger.{
  metric_value, total_tasks_submitted_is, tasks_executed_is, LoggerPc, testing_running, sleeping,
  writing_snapshot, opening_metrics, writing_submitted, writing_executed, ended, OwnerPc, using,
  joining_logger, closing_files, destroyed, Logged, Event, submits, executes, takes_snapshot,
  logger_goes, owner_goes, log, LogReach, made, logs,
}
use thread_pool_backtesting.Profiler.Logger.Rounds.{
  Written, nothing, header_only, half, whole, lines_at, submitted_in, executed_in, is_half,
  in_between, has_joined, Truthful, Told, take_snapshot-counts, used-Told, logger-Told,
}

module _ {D : Type 0} (d : Double D) where
  -- A piece of the destructor, after which the file is written as far as `w'`.
  owner-goes-Told :
      (steps : ℕ) (s s' : Logged D) (w w' : Written)
      → s'.profiler ≡ s.profiler
      → s'.logger ≡ s.logger
      → s'.metrics_file ≡ lines_at w'
      → submitted_in w' ≡ submitted_in w
      → executed_in w' ≡ executed_in w
      → is_half w' ≡ is_half w
      → (has_joined s'.owner ≡ true → s.logger ≡ ended)
      → (s'.owner ≡ destroyed → w' ≢ nothing)
      → Truthful d steps s w
      → Told d (suc steps) s'
  owner-goes-Told steps s s' w w' p l f a b half_way j c v =
      let submitted = ap (λ (q : ThreadProfiler D). q.total_tasks_submitted) p in
      let executed = ap (λ (q : ThreadProfiler D). q.tasks_executed) p in
      (
        w',
        record {
          submitted_small = omega (arith, submitted, v.submitted_small);
          executed_small = omega (arith, executed, v.executed_small);
          lines = f;
          submitted_true = omega (arith, submitted, a, v.submitted_true);
          executed_true = omega (arith, executed, b, v.executed_true);
          place = half_way ∙ v.place ∙ ap in_between (sym l);
          joined = λ g. l ∙ j g;
          closed = c;
        },
      )

  join-Told :
      {s' : Logged D} (steps : ℕ) (s : Logged D) (w : Written) (pc : LoggerPc)
      → s.logger ≡ pc
      → s.owner ≡ joining_logger
      → Truthful d steps s w
      → log d s owner_goes ≡ some s'
      → Told d (suc steps) s'
  unfolding log
  join-Told steps s w testing_running e o v h = ground arith
  join-Told steps s w sleeping e o v h = ground arith
  join-Told steps s w writing_snapshot e o v h = ground arith
  join-Told steps s w opening_metrics e o v h = ground arith
  join-Told steps s w writing_submitted e o v h = ground arith
  join-Told steps s w writing_executed e o v h = ground arith
  join-Told {s'} steps s w ended e o v h =
      owner-goes-Told steps s s' w w (ground arith) (ground arith) (ground (arith, v.lines)) refl
        refl refl (λ _. e) (λ g. ground arith) v

  close-Told :
      {s' : Logged D} (steps : ℕ) (s : Logged D) (w : Written)
      → s.owner ≡ closing_files
      → Truthful d steps s w
      → log d s owner_goes ≡ some s'
      → Told d (suc steps) s'
  unfolding log
  close-Told {s'} steps s nothing o v h =
      owner-goes-Told steps s s' nothing header_only (ground arith) (ground arith)
        (ground (arith, v.lines)) refl refl refl (λ _. v.joined (ap has_joined o)) (λ _ g. cc) v
  close-Told {s'} steps s header_only o v h =
      owner-goes-Told steps s s' header_only header_only (ground arith) (ground arith)
        (ground (arith, v.lines)) refl refl refl (λ _. v.joined (ap has_joined o)) (λ _ g. cc) v
  close-Told {s'} steps s (half a) o v h =
      owner-goes-Told steps s s' (half a) (half a) (ground arith) (ground arith)
        (ground (arith, v.lines)) refl refl refl (λ _. v.joined (ap has_joined o)) (λ _ g. cc) v
  close-Told {s'} steps s (whole a b) o v h =
      owner-goes-Told steps s s' (whole a b) (whole a b) (ground arith) (ground arith)
        (ground (arith, v.lines)) refl refl refl (λ _. v.joined (ap has_joined o)) (λ _ g. cc) v

  owner-Told :
      {s' : Logged D} (steps : ℕ) (s : Logged D) (w : Written) (o : OwnerPc)
      → s.owner ≡ o
      → Truthful d steps s w
      → log d s owner_goes ≡ some s'
      → Told d (suc steps) s'
  unfolding log
  owner-Told {s'} steps s w using o v h =
      owner-goes-Told steps s s' w w (ground arith) (ground arith) (ground (arith, v.lines)) refl
        refl refl (λ g. ground arith) (λ g. ground arith) v
  owner-Told steps s w joining_logger o v h = join-Told steps s w s.logger refl o v h
  owner-Told steps s w closing_files o v h = close-Told steps s w o v h
  owner-Told steps s w destroyed o v h = ground arith

  event-Told :
      {s' : Logged D} (steps : ℕ) (s : Logged D) (e : Event)
      → suc steps < size_mod
      → Told d steps s
      → log d s e ≡ some s'
      → Told d (suc steps) s'
  unfolding log increment_tasks_submitted increment_tasks_executed
  event-Told steps s submits small (w, v) h =
      used-Told d steps s (increment_tasks_submitted d s.profiler) w s.owner refl
        (omega (arith, v.submitted_small)) (omega (arith, v.submitted_small)) (omega arith)
        (omega (arith, v.executed_small)) v h
  event-Told steps s executes small (w, v) h =
      used-Told d steps s (increment_tasks_executed d s.profiler) w s.owner refl (omega arith)
        (omega (arith, v.submitted_small)) (omega (arith, v.executed_small))
        (omega (arith, v.executed_small)) v h
  event-Told steps s (takes_snapshot now threads queued) small (w, v) h =
      let (a, b) = take_snapshot-counts d s.profiler now threads queued in
      used-Told d steps s (take_snapshot d s.profiler now threads queued) w s.owner refl
        (omega (arith, a)) (omega (arith, a, v.submitted_small)) (omega (arith, b))
        (omega (arith, b, v.executed_small)) v h
  event-Told steps s (logger_goes now opens) small (w, v) h =
      logger-Told d steps now opens s w s.logger refl v h
  event-Told steps s owner_goes small (w, v) h = owner-Told steps s w s.owner refl v h

  reach-Told :
      (now steps : ℕ) {s : Logged D} → steps < size_mod → LogReach d now steps s → Told d steps s
  unfolding new_profiler
  reach-Told now zero small made = (
    nothing,
    record {
      submitted_small = omega arith;
      executed_small = omega arith;
      lines = refl;
      submitted_true = omega arith;
      executed_true = omega arith;
      place = refl;
      joined = λ j. cc;
      closed = λ c. cc;
    },
  )
  reach-Told now (suc steps) small (logs {s} e before h) =
      event-Told steps s e small (reach-Told now steps (omega arith) before) h

  told-file :
      (steps : ℕ) (s : Logged D) (w : Written)
      → s.owner ≡ destroyed
      → Truthful d steps s w
      → (s.metrics_file ≡ metric_value ∷ [])
        ⊎ ((a : ℕ) × (b : ℕ) × (s.metrics_file
              ≡ metric_value ∷ total_tasks_submitted_is a ∷ tasks_executed_is b ∷ [])
            × (a ≤ s.profiler.total_tasks_submitted)
            × (b ≤ s.profiler.tasks_executed))
  told-file steps s nothing gone v = absurd (v.closed gone refl)
  told-file steps s header_only gone v = inl v.lines
  told-file steps s (half a) gone v =
      let place = v.place ∙ ap in_between (v.joined (ap has_joined gone)) in cc
  told-file steps s (whole a b) gone v = inr (a, b, v.lines, v.submitted_true, v.executed_true)

  -- When the destructor is through, after fewer than 2^64 pieces of any threads: the metrics file
  -- is whole. It is the header alone, or the header and the two counts, of which neither is more
  -- than the counter reached.
  pub metrics_file_whole :
      (now steps : ℕ) (s : Logged D)
      → steps < size_mod
      → LogReach d now steps s
      → s.owner ≡ destroyed
      → (s.metrics_file ≡ metric_value ∷ [])
        ⊎ ((a : ℕ) × (b : ℕ) × (s.metrics_file
              ≡ metric_value ∷ total_tasks_submitted_is a ∷ tasks_executed_is b ∷ [])
            × (a ≤ s.profiler.total_tasks_submitted)
            × (b ≤ s.profiler.tasks_executed))
  metrics_file_whole now steps s small r gone =
      let (w, v) = reach-Told now steps small r in told-file steps s w gone v

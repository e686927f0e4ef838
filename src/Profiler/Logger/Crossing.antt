-- ===== src/Profiler/Logger/Crossing.antt =====
-- The two counts in the metrics file of ThreadPoolBenchmark/ThreadProfiler.h are read one after the other.
use thread_pool_backtesting.Base.{
  ℕ, zero, suc, ◌+◌, ◌<◌, ◌≤◌, ◌≡◌, refl, ◌∙◌, true, some, List, [], ◌∷◌, ◌++◌, arith, size_mod,
}
use thread_pool_backtesting.Harness.Doubles.{Double}
use thread_pool_backtesting.Profiler.{
  new_profiler, increment_tasks_submitted, increment_tasks_executed, latest, preliminary,
}
use thread_pool_backtesting.Profiler.Logger.{
  MetricsLine, metric_value, total_tasks_submitted_is, tasks_executed_is, testing_running, sleeping,
  writing_snapshot, opening_metrics, writing_submitted, writing_executed, using, Logged, Event,
  submits, executes, logger_goes, new_logged, log,
}

module _ {D : Type 0} (d : Double D) (now : ℕ) where
  abbrev Balanced : Logged D → Type 0
  Balanced s = s.profiler.tasks_executed ≤ s.profiler.total_tasks_submitted

  -- The states that the threads can get to without a state on the way in which more tasks were executed
  -- than submitted.
  pub data BalancedReach : Logged D → Type 0 where
    starts : BalancedReach (new_logged d now)
    goes :
        {s s' : Logged D} (e : Event)
        → BalancedReach s
        → log d s e ≡ some s'
        → s'.profiler.tasks_executed ≤ s'.profiler.total_tasks_submitted
        → BalancedReach s'

  -- The logger stands between the two counts, and as many tasks were executed as submitted.
  record Between (s : Logged D) (file : List MetricsLine) (count : ℕ) : Type 0 where
    pub reached : BalancedReach s
    pub used : s.owner ≡ using
    pub between : s.logger ≡ writing_executed
    pub file_so_far : s.metrics_file ≡ file
    pub submitted : s.profiler.total_tasks_submitted ≡ count
    pub executed : s.profiler.tasks_executed ≡ count

  -- A task is submitted and executed.
  pair-Between :
      (s : Logged D) (file : List MetricsLine) (count : ℕ)
      → suc count < size_mod
      → Between s file count
      → (s' : Logged D) × Between s' file (suc count)
  unfolding log increment_tasks_submitted increment_tasks_executed
  pair-Between s file count small b =
      let s1 = record s { profiler = increment_tasks_submitted d s.profiler } in
      let s2 = record s1 { profiler = increment_tasks_executed d s1.profiler } in
      (
        s2,
        record {
          reached =
              goes {s = s1} executes
                (goes {s = s} submits b.reached (ground (arith, b.used))
                  (omega (arith, b.submitted, b.executed)))
                (ground (arith, b.used)) (omega (arith, b.submitted, b.executed));
          used = b.used;
          between = b.between;
          file_so_far = b.file_so_far;
          submitted = omega (arith, b.submitted);
          executed = omega (arith, b.executed);
        },
      )

  pairs-Between :
      (k : ℕ) (file : List MetricsLine) (count : ℕ)
      → count + k < size_mod
      → (s : Logged D) → Between s file count
      → (s' : Logged D) × Between s' file (count + k)
  pairs-Between zero file count small s b = let e : count + 0 ≡ count = omega arith in (s, rw e b)
  pairs-Between (suc k) file count small s b =
      let (s', c) = pair-Between s file count (omega arith) b in
      let e : count + suc k ≡ suc count + k = omega arith in
      rw e (pairs-Between k file (suc count) (omega arith) s' c)

  -- The first round, up to the count of executed tasks.
  begin-Between : (s : Logged D) × Between s (metric_value ∷ total_tasks_submitted_is 0 ∷ []) 0
  unfolding log new_profiler latest
  begin-Between =
      let s0 = new_logged d now in
      let s1 = record s0 { logger = sleeping } in
      let s2 = record s0 { logger = writing_snapshot } in
      let s3 = record s0 { logger = opening_metrics; snapshot_rows = preliminary d now 0 0 ∷ [] } in
      let s4 = record s3 { logger = writing_submitted } in
      let s5 = record s4 {
        logger = writing_executed;
        metrics_file = metric_value ∷ total_tasks_submitted_is 0 ∷ [];
      } in
      let none_yet : Balanced s0 = omega arith in
      let go = logger_goes now true in
      (
        s5,
        record {
          reached =
              goes {s = s4} go
                (goes {s = s3} go
                  (goes {s = s2} go
                    (goes {s = s1} go (goes {s = s0} go starts refl none_yet) refl none_yet) refl
                    none_yet)
                  refl none_yet)
                refl none_yet;
          used = refl;
          between = refl;
          file_so_far = refl;
          submitted = refl;
          executed = refl;
        },
      )

  -- Though in no state on the way were more tasks executed than submitted, the file can say so:
  -- for each `k` below 2^64, after `k` tasks were submitted and executed, it can give 0 as
  -- submitted and `k` as executed.
  counts_cross :
      (k : ℕ)
      → k < size_mod
      → (s : Logged D) × BalancedReach s
        × (s.metrics_file ≡ metric_value ∷ total_tasks_submitted_is 0 ∷ tasks_executed_is k ∷ [])
        × (s.profiler.total_tasks_submitted ≡ k)
        × (s.profiler.tasks_executed ≡ k)
  unfolding log
  counts_cross k small =
      let (s0, b0) = begin-Between in
      let (s, b) =
        pairs-Between k (metric_value ∷ total_tasks_submitted_is 0 ∷ []) 0 (omega arith) s0 b0 in
      let e : 0 + k ≡ k = omega arith in
      let s' = record s {
        metrics_file = s.metrics_file ++ tasks_executed_is s.profiler.tasks_executed ∷ [];
        logger = testing_running;
      } in
      (
        s',
        goes (logger_goes now true) b.reached (ground (arith, b.between))
            (omega (arith, b.submitted, b.executed)),
        ground (arith, b.file_so_far, b.executed),
        b.submitted ∙ e,
        b.executed ∙ e,
      )

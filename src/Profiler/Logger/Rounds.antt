-- ===== src/Profiler/Logger/Rounds.antt =====
-- The rounds of the logger in ThreadPoolBenchmark/ThreadProfiler.h, and what they leave in the metrics file.
use thread_pool_backtesting.Base.{
  ℕ, suc, ◌≤◌, ◌≡◌, ◌≢◌, refl, sym, ap, subst, ◌∙◌, Bool, true, false, some, List, [], ◌∷◌, ◌++◌,
  arith,
}
use thread_pool_backtesting.Harness.Doubles.{Double}
use thread_pool_backtesting.Profiler.{ThreadProfiler, take_snapshot}
use thread_pool_backtesting.Profiler.Logger.{
  MetricsLine, metric_value, total_tasks_submitted_is, tasks_executed_is, LoggerPc, testing_running,
  sleeping, writing_snapshot, opening_metrics, writing_submitted, writing_executed, ended, OwnerPc,
  using, joining_logger, closing_files, destroyed, Logged, logger_goes, while_used, log,
}

-- How far the file is written, and with which counts.
pub data Written : Type 0 where
  nothing header_only : Written
  half : (submitted : ℕ) → Written
  whole : (submitted executed : ℕ) → Written

abbrev pub lines_at : Written → List MetricsLine
lines_at nothing = []
lines_at header_only = metric_value ∷ []
lines_at (half a) = metric_value ∷ total_tasks_submitted_is a ∷ []
lines_at (whole a b) = metric_value ∷ total_tasks_submitted_is a ∷ tasks_executed_is b ∷ []

abbrev pub submitted_in : Written → ℕ
submitted_in nothing = 0
submitted_in header_only = 0
submitted_in (half a) = a
submitted_in (whole a b) = a

abbrev pub executed_in : Written → ℕ
executed_in nothing = 0
executed_in header_only = 0
executed_in (half a) = 0
executed_in (whole a b) = b

abbrev pub is_half : Written → Bool
is_half nothing = false
is_half header_only = false
is_half (half a) = true
is_half (whole a b) = false

abbrev pub in_between : LoggerPc → Bool
in_between testing_running = false
in_between sleeping = false
in_between writing_snapshot = false
in_between opening_metrics = false
in_between writing_submitted = false
in_between writing_executed = true
in_between ended = false

abbrev pub has_joined : OwnerPc → Bool
has_joined using = false
has_joined joining_logger = false
has_joined closing_files = true
has_joined destroyed = true

some_injective : {A : Type 0} {x y : A} → some x ≡ some y → x ≡ y
some_injective h = cc

module _ {D : Type 0} (d : Double D) where
  pub record Truthful (steps : ℕ) (s : Logged D) (written : Written) : Type 0 where
    pub submitted_small : s.profiler.total_tasks_submitted ≤ steps
    pub executed_small : s.profiler.tasks_executed ≤ steps
    pub lines : s.metrics_file ≡ lines_at written
    pub submitted_true : submitted_in written ≤ s.profiler.total_tasks_submitted
    pub executed_true : executed_in written ≤ s.profiler.tasks_executed
    pub place : is_half written ≡ in_between s.logger
    pub joined : has_joined s.owner ≡ true → s.logger ≡ ended
    pub closed : s.owner ≡ destroyed → written ≢ nothing

  abbrev pub Told : ℕ → Logged D → Type 0
  Told steps s = (written : Written) × Truthful steps s written

  pub take_snapshot-counts :
      (p : ThreadProfiler D) (now threads queued : ℕ)
      → ((take_snapshot d p now threads queued).total_tasks_submitted ≡ p.total_tasks_submitted)
        × ((take_snapshot d p now threads queued).tasks_executed ≡ p.tasks_executed)
  unfolding take_snapshot
  take_snapshot-counts p now threads queued = ground arith

  -- A use of the profiler, which becomes `p`.
  pub used-Told :
      {s' : Logged D} (steps : ℕ) (s : Logged D) (p : ThreadProfiler D) (w : Written) (o : OwnerPc)
      → s.owner ≡ o
      → s.profiler.total_tasks_submitted ≤ p.total_tasks_submitted
      → p.total_tasks_submitted ≤ suc steps
      → s.profiler.tasks_executed ≤ p.tasks_executed
      → p.tasks_executed ≤ suc steps
      → Truthful steps s w
      → while_used d s o p ≡ some s'
      → Told (suc steps) s'
  used-Told steps s p w using e a b a' b' v h =
      let f : record s { profiler = p } ≡ _ = some_injective h in
      subst (Told (suc steps)) f (
        w,
        record {
          submitted_small = b;
          executed_small = b';
          lines = v.lines;
          submitted_true = omega (arith, v.submitted_true);
          executed_true = omega (arith, v.executed_true);
          place = v.place;
          joined = v.joined;
          closed = v.closed;
        },
      )
  used-Told steps s p w joining_logger e a b a' b' v h = cc
  used-Told steps s p w closing_files e a b a' b' v h = cc
  used-Told steps s p w destroyed e a b a' b' v h = cc

  -- A piece of the logger, after which the file is written as far as `w'`.
  pub goes-Told :
      (steps : ℕ) (s s' : Logged D) (w w' : Written)
      → s'.profiler ≡ s.profiler
      → s'.owner ≡ s.owner
      → s.logger ≢ ended
      → s'.metrics_file ≡ lines_at w'
      → submitted_in w' ≤ s.profiler.total_tasks_submitted
      → executed_in w' ≤ s.profiler.tasks_executed
      → is_half w' ≡ in_between s'.logger
      → Truthful steps s w
      → Told (suc steps) s'
  goes-Told steps s s' w w' p o going f a b l v =
      let submitted = ap (λ (q : ThreadProfiler D). q.total_tasks_submitted) p in
      let executed = ap (λ (q : ThreadProfiler D). q.tasks_executed) p in
      let gone : has_joined s'.owner ≡ true → s'.logger ≡ ended =
        λ j. absurd (going (v.joined (ap has_joined (sym o) ∙ j))) in
      (
        w',
        record {
          submitted_small = omega (arith, submitted, v.submitted_small);
          executed_small = omega (arith, executed, v.executed_small);
          lines = f;
          submitted_true = omega (arith, submitted, a);
          executed_true = omega (arith, executed, b);
          place = l;
          joined = gone;
          closed = λ c. absurd (going (v.joined (ap has_joined (sym o ∙ c))));
        },
      )

  completes :
      (w : Written) (b : ℕ)
      → is_half w ≡ true
      → lines_at w ++ tasks_executed_is b ∷ [] ≡ lines_at (whole (submitted_in w) b)
  completes nothing b h = cc
  completes header_only b h = cc
  completes (half a) b h = refl
  completes (whole a c) b h = cc

  pub logger-Told :
      {s' : Logged D} (steps now : ℕ) (opens : Bool) (s : Logged D) (w : Written) (pc : LoggerPc)
      → s.logger ≡ pc
      → Truthful steps s w
      → log d s (logger_goes now opens) ≡ some s'
      → Told (suc steps) s'
  unfolding log
  logger-Told {s'} steps now opens s w testing_running e v h =
      goes-Told steps s s' w w (ground arith) (ground arith) (λ g. cc) (ground (arith, v.lines))
        v.submitted_true v.executed_true (ground (arith, v.place)) v
  logger-Told {s'} steps now opens s w sleeping e v h =
      goes-Told steps s s' w w (ground arith) (ground arith) (λ g. cc) (ground (arith, v.lines))
        v.submitted_true v.executed_true (ground (arith, v.place)) v
  logger-Told {s'} steps now opens s w writing_snapshot e v h =
      goes-Told steps s s' w w (ground arith) (ground arith) (λ g. cc) (ground (arith, v.lines))
        v.submitted_true v.executed_true (ground (arith, v.place)) v
  logger-Told {s'} steps now true s w opening_metrics e v h =
      goes-Told steps s s' w nothing (ground arith) (ground arith) (λ g. cc) (ground arith)
        (omega arith) (omega arith) (ground arith) v
  logger-Told {s'} steps now false s w opening_metrics e v h =
      goes-Told steps s s' w w (ground arith) (ground arith) (λ g. cc) (ground (arith, v.lines))
        v.submitted_true v.executed_true (ground (arith, v.place)) v
  logger-Told {s'} steps now opens s w writing_submitted e v h =
      goes-Told steps s s' w (half s.profiler.total_tasks_submitted) (ground arith) (ground arith)
        (λ g. cc) (ground arith) (omega arith) (omega arith) (ground arith) v
  logger-Told {s'} steps now opens s w writing_executed e v h =
      let full = completes w s.profiler.tasks_executed (v.place ∙ ap in_between e) in
      goes-Told steps s s' w (whole (submitted_in w) s.profiler.tasks_executed) (ground arith)
        (ground arith) (λ g. cc) (ground (arith, v.lines, full)) v.submitted_true (omega arith)
        (ground arith) v
  logger-Told {s'} steps now opens s w ended e v h = ground arith

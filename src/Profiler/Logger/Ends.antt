-- ===== src/Profiler/Logger/Ends.antt =====
-- That ~ThreadProfiler of ThreadPoolBenchmark/ThreadProfiler.h returns.
use thread_pool_backtesting.Base.{
  ℕ, ◌+◌, ◌<◌, ◌≤◌, ◌≡◌, ◌≢◌, refl, ap, ◌∙◌, ◌⊎◌, inl, inr, Bool, true, false, some, arith,
  if◌then◌else◌,
}
use thread_pool_backtesting.Harness.Doubles.{Double}
use thread_pool_backtesting.Profiler.{ThreadProfiler}
use thread_pool_backtesting.Profiler.Logger.{
  LoggerPc, testing_running, sleeping, writing_snapshot, opening_metrics, writing_submitted,
  writing_executed, ended, OwnerPc, using, joining_logger, closing_files, destroyed, Logged, Event,
  submits, executes, takes_snapshot, logger_goes, owner_goes, log, LogReach, made, logs, while_used,
  logger_at, close_metrics,
}

-- How many pieces are left to the logger once `running` is false, and to the destructor.
abbrev pub logger_left : LoggerPc → ℕ
logger_left testing_running = 1
logger_left sleeping = 6
logger_left writing_snapshot = 5
logger_left opening_metrics = 4
logger_left writing_submitted = 3
logger_left writing_executed = 2
logger_left ended = 0

abbrev pub owner_left : OwnerPc → ℕ
owner_left using = 3
owner_left joining_logger = 2
owner_left closing_files = 1
owner_left destroyed = 0

logger_left-le : (pc : LoggerPc) → logger_left pc ≤ 6
logger_left-le testing_running = omega arith
logger_left-le sleeping = omega arith
logger_left-le writing_snapshot = omega arith
logger_left-le opening_metrics = omega arith
logger_left-le writing_submitted = omega arith
logger_left-le writing_executed = omega arith
logger_left-le ended = omega arith

owner_left-le : (o : OwnerPc) → o ≢ using → owner_left o ≤ 2
owner_left-le using h = absurd (h refl)
owner_left-le joining_logger h = omega arith
owner_left-le closing_files h = omega arith
owner_left-le destroyed h = omega arith

is_using : (o : OwnerPc) → (o ≡ using) ⊎ (o ≢ using)
is_using using = inl refl
is_using joining_logger = inr (λ e. cc)
is_using closing_files = inr (λ e. cc)
is_using destroyed = inr (λ e. cc)

module _ {D : Type 0} (d : Double D) where
  abbrev pub left : Logged D → ℕ
  left s = logger_left s.logger + owner_left s.owner

  logger-left :
      {s' : Logged D} (now : ℕ) (opens : Bool) (s : Logged D) (pc : LoggerPc)
      → s.logger ≡ pc
      → log d s (logger_goes now opens) ≡ some s'
      → (s'.owner ≡ s.owner)
        × (s'.running ≡ s.running)
        × (s.running ≡ false → logger_left s'.logger < logger_left s.logger)
  unfolding log
  logger-left now opens s testing_running e h = (ground arith, ground arith, λ r. ground arith)
  logger-left now opens s sleeping e h = (ground arith, ground arith, λ r. ground arith)
  logger-left now opens s writing_snapshot e h = (ground arith, ground arith, λ r. ground arith)
  logger-left now opens s opening_metrics e h = (ground arith, ground arith, λ r. ground arith)
  logger-left now opens s writing_submitted e h = (ground arith, ground arith, λ r. ground arith)
  logger-left now opens s writing_executed e h = (ground arith, ground arith, λ r. ground arith)
  logger-left now opens s ended e h = (ground arith, ground arith, λ r. ground arith)

  join-left :
      {s' : Logged D} (s : Logged D) (pc : LoggerPc)
      → s.logger ≡ pc
      → s.owner ≡ joining_logger
      → log d s owner_goes ≡ some s'
      → (s'.running ≡ s.running) × (left s' < left s)
  unfolding log
  join-left s testing_running e o h = ground arith
  join-left s sleeping e o h = ground arith
  join-left s writing_snapshot e o h = ground arith
  join-left s opening_metrics e o h = ground arith
  join-left s writing_submitted e o h = ground arith
  join-left s writing_executed e o h = ground arith
  join-left s ended e o h = (ground arith, ground arith)

  owner-left :
      {s' : Logged D} (s : Logged D) (o : OwnerPc)
      → s.owner ≡ o
      → log d s owner_goes ≡ some s'
      → (s.running ≡ false → s'.running ≡ false)
        × (o ≡ using → s'.running ≡ false)
        × (left s' < left s)
  unfolding log
  owner-left s using o h = (λ r. ground arith, λ u. ground arith, ground arith)
  owner-left s joining_logger o h =
      let (same, less) = join-left s s.logger refl o h in (λ r. same ∙ r, λ u. cc, less)
  owner-left s closing_files o h = (λ r. ground arith, λ u. cc, ground arith)
  owner-left s destroyed o h = (λ r. ground arith, λ u. cc, ground arith)

  -- No thread uses the profiler behind the call of its destructor.
  used :
      {s' : Logged D} (s : Logged D) (p : ThreadProfiler D) (o : OwnerPc)
      → while_used d s o p ≡ some s'
      → (o ≡ using) × (s'.owner ≡ s.owner)
  used s p using h = (refl, ground arith)
  used s p joining_logger h = cc
  used s p closing_files h = cc
  used s p destroyed h = cc

  abbrev Stopped : Logged D → Type 0
  Stopped s = s.owner ≢ using → s.running ≡ false

  log-Stopped :
      {s' : Logged D} (s : Logged D) (e : Event) → Stopped s → log d s e ≡ some s' → Stopped s'
  unfolding log
  log-Stopped s submits v h = λ u. absurd (u ((used s _ s.owner h).1 ∙ (used s _ s.owner h).0))
  log-Stopped s executes v h = λ u. absurd (u ((used s _ s.owner h).1 ∙ (used s _ s.owner h).0))
  log-Stopped s (takes_snapshot now threads queued) v h =
      λ u. absurd (u ((used s _ s.owner h).1 ∙ (used s _ s.owner h).0))
  log-Stopped s (logger_goes now opens) v h =
      let (o, r, less) = logger-left now opens s s.logger refl h in λ u. r ∙ v (λ f. u (o ∙ f))
  log-Stopped s owner_goes v h =
      let (later, first, less) = owner-left s s.owner refl h in
      λ u. elim (is_using s.owner) [ inl f ↦ first f | inr f ↦ later (v f) ]

  reach-Stopped : (now : ℕ) {steps : ℕ} {s : Logged D} → LogReach d now steps s → Stopped s
  reach-Stopped now made = λ u. absurd (u refl)
  reach-Stopped now (logs {s} e before h) = log-Stopped s e (reach-Stopped now before) h

  log-left :
      {s' : Logged D} (s : Logged D) (e : Event)
      → s.owner ≢ using
      → s.running ≡ false
      → log d s e ≡ some s'
      → left s' < left s
  unfolding log
  log-left s submits u r h = absurd (u (used s _ s.owner h).0)
  log-left s executes u r h = absurd (u (used s _ s.owner h).0)
  log-left s (takes_snapshot now threads queued) u r h = absurd (u (used s _ s.owner h).0)
  log-left s (logger_goes now opens) u r h =
      let (o, same, less) = logger-left now opens s s.logger refl h in
      omega (arith, ap owner_left o, less r)
  log-left s owner_goes u r h = (owner-left s s.owner refl h).2

  abbrev CanGo : Logged D → Type 0
  CanGo s = (e : Event) × (s' : Logged D) × (log d s e ≡ some s')

  joining-CanGo :
      (s : Logged D) (pc : LoggerPc) → s.logger ≡ pc → s.owner ≡ joining_logger → CanGo s
  unfolding log
  joining-CanGo s testing_running e o = (
    logger_goes 0 true,
    record s { logger = if s.running then sleeping else ended },
    ground arith,
  )
  joining-CanGo s sleeping e o =
      (logger_goes 0 true, record s { logger = writing_snapshot }, ground arith)
  joining-CanGo s writing_snapshot e o = (logger_goes 0 true, _, ap (logger_at d s 0 true) e)
  joining-CanGo s opening_metrics e o = (logger_goes 0 true, _, ap (logger_at d s 0 true) e)
  joining-CanGo s writing_submitted e o = (logger_goes 0 true, _, ap (logger_at d s 0 true) e)
  joining-CanGo s writing_executed e o = (logger_goes 0 true, _, ap (logger_at d s 0 true) e)
  joining-CanGo s ended e o = (owner_goes, record s { owner = closing_files }, ground arith)

  owner-CanGo : (s : Logged D) (o : OwnerPc) → s.owner ≡ o → o ≢ using → (o ≡ destroyed) ⊎ CanGo s
  unfolding log
  owner-CanGo s using e u = absurd (u refl)
  owner-CanGo s joining_logger e u = inr (joining-CanGo s s.logger refl e)
  owner-CanGo s closing_files e u = inr (
    owner_goes,
    record s { metrics_file = close_metrics d s.metrics_file; owner = destroyed },
    ground arith,
  )
  owner-CanGo s destroyed e u = inl refl

  -- In every state that the threads can get to once the destructor has been called, unless it is
  -- through: some piece can be made, and whichever is made, the pieces left, at most 8, get fewer.
  -- So the destructor returns, however the threads are interleaved.
  pub destructor_ends :
      (now steps : ℕ) (s : Logged D)
      → LogReach d now steps s
      → s.owner ≢ using
      → (left s ≤ 8)
        × ((e : Event) (s' : Logged D) → log d s e ≡ some s' → left s' < left s)
        × ((s.owner ≡ destroyed) ⊎ ((e : Event) × (s' : Logged D) × (log d s e ≡ some s')))
  destructor_ends now steps s r u = (
    omega (arith, logger_left-le s.logger, owner_left-le s.owner u),
    λ e s' h. log-left s e u (reach-Stopped now r u) h,
    owner-CanGo s s.owner refl u,
  )

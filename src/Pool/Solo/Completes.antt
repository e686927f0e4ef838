-- ===== src/Pool/Solo/Completes.antt =====
-- What a pool that one thread used leaves behind (ThreadPoolBenchmark/ThreadPool.h).
use mathlib.Core.List.{append-nil}
use Prim.Native.String.{String}
use thread_pool_backtesting.Base.{
  ℕ, ◌+◌, ◌≤◌, ◌<◌, ◌≡◌, refl, sym, subst, ap, ◌∙◌, inl, inr, Bool, true, false, some, List, [],
  ◌∷◌, ◌++◌, arith, length, length-append, tally, tally_none, size_mod, weigh,
}
use thread_pool_backtesting.Queue.{wait_pop, push, try_push_locked, new, try_push_open}
use thread_pool_backtesting.Pool.{
  ThreadPool, Outcome, Request, WorkerPc, starting, waiting, running, counting, exited, CallerPc,
  outside, admitted, unlocked, clearing, draining, closing, joining, try_enqueue_task,
  shutdown_immediately, shutdown_process_remaining_tasks, construct, work, start_worker, begin,
  continue,
}
use thread_pool_backtesting.Pool.System.{Step, works, begins, continues, Reach, start, next}
use thread_pool_backtesting.Pool.Conservation.{in_hand, ran, Conserved, Reach-Conserved}
use thread_pool_backtesting.Pool.Solo.{IsOver, Place, Solo, work-Solo, begin-Solo, continue-Solo}

module _ {T : Type 0} where
  work-entered :
      {q : ThreadPool T} (p : ThreadPool T) (i : ℕ) (o : Outcome) (pc : WorkerPc T) (xs : List T)
      → p.workers i ≡ pc
      → p.task_queue.queue ≡ xs
      → work p i o ≡ some q
      → q.log.entered ≡ p.log.entered
  unfolding work start_worker wait_pop
  work-entered p i o starting xs e f h = ground arith
  work-entered p i o waiting [] e f h = ground arith
  work-entered p i o waiting (x ∷ xs) e f h = ground arith
  work-entered p i o (running t) xs e f h = ground arith
  work-entered p i o counting xs e f h = ground arith
  work-entered p i o exited xs e f h = ground arith

  begin-entered : (p : ThreadPool T) (r : Request T) → (begin p 0 r).log.entered ≡ p.log.entered
  unfolding begin
  begin-entered p (try_enqueue_task t b) = ground arith
  begin-entered p shutdown_immediately = ground arith
  begin-entered p shutdown_process_remaining_tasks = ground arith

  continue-entered :
      {q : ThreadPool T} (p : ThreadPool T) (c : CallerPc T)
      → p.callers 0 ≡ c
      → continue p 0 ≡ some q
      → length p.log.entered ≤ length q.log.entered
  unfolding continue push try_push_locked try_push_open
  continue-entered p outside e h = ground arith
  continue-entered p (admitted t true) e h = ground (arith, length-append p.log.entered (t ∷ []))
  continue-entered p (admitted t false) e h = ground arith
  continue-entered p (unlocked t) e h = ground (arith, length-append p.log.entered (t ∷ []))
  continue-entered p clearing e h = ground arith
  continue-entered p draining e h = ground arith
  continue-entered p closing e h = ground arith
  continue-entered p (joining k) e h = ground arith

  abbrev pub Sound : ThreadPool T → Type 0
  Sound p = length p.log.entered < size_mod → Solo p

  construct-Solo :
      (n capacity : ℕ) (storage affinity : Bool) (name : String)
      → Solo {T = T} (construct storage name n capacity affinity)
  unfolding construct new
  construct-Solo n capacity storage affinity name = record {
    place = inl (refl, refl);
    sized = refl;
    bounded = omega arith;
    none_dropped = refl;
    discards = λ _. refl;
  }

  continues-Sound : {p q : ThreadPool T} (j : ℕ) → j ≡ 0 → continue p j ≡ some q → Sound p → Sound q
  continues-Sound {p} {q} j z h v small =
      let at_0 : continue p 0 ≡ some q = subst (λ i. continue p i ≡ some q) z h in
      let before : length p.log.entered < size_mod =
        omega (arith, continue-entered p (p.callers 0) refl at_0) in
      continue-Solo p (p.callers 0) refl (v before).place before (v before) at_0

  begins-Sound :
      {p : ThreadPool T} (j : ℕ) (r : Request T)
      → j ≡ 0
      → p.callers j ≡ outside
      → Sound p
      → Sound (begin p j r)
  begins-Sound {p} j r z out v small =
      let same : begin p 0 r ≡ begin p j r = ap (λ i. begin p i r) (sym z) in
      let small' : length (begin p 0 r).log.entered < size_mod =
        subst (λ (x : ThreadPool T). length x.log.entered < size_mod) (sym same) small in
      let before : length p.log.entered < size_mod = omega (arith, ap length (begin-entered p r)) in
      subst Solo same (begin-Solo p r (subst (λ i. p.callers i ≡ outside) z out) (v before))

  works-Sound : {p q : ThreadPool T} (i : ℕ) (o : Outcome) → work p i o ≡ some q → Sound p → Sound q
  works-Sound {p} {q} i o h v small =
      let before : length p.log.entered < size_mod =
        subst (λ (l : List T). length l < size_mod)
          (work-entered p i o (p.workers i) p.task_queue.queue refl refl h) small in
      work-Solo p i o (v before) h

  Step-Sound : {p q : ThreadPool T} → Step 1 p q → Sound p → Sound q
  Step-Sound (works i o lt h) v = works-Sound i o h v
  Step-Sound (begins j r lt out e) v = subst Sound (sym e) (begins-Sound j r (omega arith) out v)
  Step-Sound (continues j lt h) v = continues-Sound j (omega arith) h v

  pub Reach-Sound : {n capacity : ℕ} {p : ThreadPool T} → Reach n capacity 1 p → Sound p
  Reach-Sound {n} {capacity} (start storage affinity name) =
      λ _. construct-Solo n capacity storage affinity name
  Reach-Sound (next r s) = Step-Sound s (Reach-Sound r)

  IsOver-outside : (p : ThreadPool T) → Place p outside → p.active ≡ false → IsOver p
  IsOver-outside p (inl s) e = cc
  IsOver-outside p (inr s) e = s

  -- The pool after its only caller has come back from a shutdown.
  pub record Completed (w : T → ℕ) (n : ℕ) (p : ThreadPool T) : Type 0 where
    pub all_ran : weigh w p.log.accepted ≡ weigh (ran w) p.log.finished + weigh w p.log.discarded
    pub in_order : p.log.entered ≡ p.log.left
    pub nothing_left : p.task_queue.queue ≡ []
    pub gone : (i : ℕ) → i < n → p.workers i ≡ exited
    pub kept : p.log.immediate ≡ false → p.log.discarded ≡ []

  none_in_hand :
      (w : T → ℕ) (n : ℕ) (p : ThreadPool T)
      → ((i : ℕ) → i < n → p.workers i ≡ exited)
      → tally (in_hand w) p.workers n ≡ 0
  none_in_hand w n p gone = tally_none (in_hand w) p.workers n (λ i lt. ap (in_hand w) (gone i lt))

  -- When the only thread that uses a pool is back from a shutdown, and fewer than 2^64 tasks went
  -- into the queue: every worker has left its loop, the queue is empty, each task reported as
  -- accepted was run once or was discarded (the weight is arbitrary), tasks left the queue in the
  -- order in which they came, and nothing was discarded unless the shutdown was
  -- shutdownImmediately.
  pub solo_completes :
      {n capacity : ℕ} {p : ThreadPool T} (w : T → ℕ)
      → Reach n capacity 1 p
      → p.callers 0 ≡ outside
      → p.active ≡ false
      → length p.log.entered < size_mod
      → Completed w n p
  solo_completes {n} {p = p} w r out inactive small = record {
    all_ran = omega (
      arith,
      c.balance,
      none_in_hand w n p gone,
      ap (weigh w) over.2,
      ap (weigh w) v.none_dropped,
    );
    in_order = c.order ∙ ap (◌++◌ p.log.left) over.2 ∙ append-nil p.log.left;
    nothing_left = over.2;
    gone = gone;
    kept = v.discards;
  }
    where
      v : Solo p
      v = Reach-Sound r small

      c : Conserved w n p
      c = Reach-Conserved w r

      over : IsOver p
      over = IsOver-outside p (subst (Place p) out v.place) inactive

      gone : (i : ℕ) → i < n → p.workers i ≡ exited
      gone i lt = over.3 i (omega (arith, c.threads))

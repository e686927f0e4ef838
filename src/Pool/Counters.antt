-- ===== src/Pool/Counters.antt =====
-- Counters over threads: one winner of the shutdown, and `tasksCompleted`
-- (ThreadPoolBenchmark/ThreadPool.h).
use Prim.Native.String.{String}
use thread_pool_backtesting.Base.{
  ℕ, suc, ◌+◌, ◌%◌, ◌≤◌, ◌<◌, ◌≡◌, refl, sym, subst, Bool, true, false, some, List, [], ◌∷◌, arith,
  length, length-append, tally, tally-update, tally_none, score-le-tally, size_mod,
}
use thread_pool_backtesting.Queue.{
  wait_pop, push, try_push_locked, clear, shut_down, try_push_open, empty,
}
use thread_pool_backtesting.Pool.{
  ThreadPool, Outcome, Request, WorkerPc, starting, waiting, running, counting, exited, CallerPc,
  outside, admitted, unlocked, clearing, draining, closing, joining, try_enqueue_task,
  shutdown_immediately, shutdown_process_remaining_tasks, construct, work, start_worker, begin,
  continue,
}
use thread_pool_backtesting.Pool.System.{Step, works, begins, continues, Reach, start, next}

abbrev pub as_number : Bool → ℕ
as_number true = 1
as_number false = 0

module _ {T : Type 0} where
  -- 1 in a call of a shutdown that has changed `active`
  abbrev pub shutting : CallerPc T → ℕ
  shutting outside = 0
  shutting (admitted t b) = 0
  shutting (unlocked t) = 0
  shutting clearing = 1
  shutting draining = 1
  shutting closing = 1
  shutting (joining k) = 1

  -- 1 between the end of a task and its entry in `tasksCompleted`
  abbrev pub uncounted : WorkerPc T → ℕ
  uncounted starting = 0
  uncounted waiting = 0
  uncounted (running t) = 0
  uncounted counting = 1
  uncounted exited = 0

  pub record Counted (n m : ℕ) (p : ThreadPool T) : Type 0 where
    pub threads : p.current_threads ≡ n
    pub one_winner : tally shutting p.callers m + as_number p.active ≤ 1
    pub completed :
        length p.log.finished < size_mod
        → tally (λ k. k) p.tasks_completed n + tally uncounted p.workers n ≡ length p.log.finished

  construct-Counted :
      (n m capacity : ℕ) (storage affinity : Bool) (name : String)
      → Counted n m (construct storage name n capacity affinity)
  unfolding construct
  construct-Counted n m capacity storage affinity name = record {
    threads = refl;
    one_winner = omega (arith, tally_none shutting (λ _. outside) m (λ _ _. refl));
    completed = λ _. omega (
      arith,
      tally_none uncounted (λ _. starting) n (λ _ _. refl),
      tally_none (λ k. k) (λ _. 0) n (λ _ _. refl),
    );
  }

  work-Counted :
      {n m : ℕ} {q : ThreadPool T} (p : ThreadPool T) (i : ℕ) (o : Outcome) (pc : WorkerPc T)
      (xs : List T)
      → p.workers i ≡ pc
      → p.task_queue.queue ≡ xs
      → i < n
      → Counted n m p
      → work p i o ≡ some q
      → Counted n m q
  unfolding work start_worker wait_pop
  work-Counted {n} p i o starting xs e f lt v h =
      ground (arith, tally-update uncounted p.workers n i waiting, v.completed)
  work-Counted {n} p i o waiting [] e f lt v h =
      ground (arith, tally-update uncounted p.workers n i exited, v.completed)
  work-Counted {n} p i o waiting (t ∷ xs) e f lt v h =
      ground (arith, tally-update uncounted p.workers n i (running t), v.completed)
  work-Counted {n} p i o (running t) xs e f lt v h = ground (
    arith,
    tally-update uncounted p.workers n i counting,
    v.completed,
    length-append p.log.finished ((t, o) ∷ []),
  )
  work-Counted {n} p i o counting xs e f lt v h = ground (
    arith,
    tally-update uncounted p.workers n i waiting,
    v.completed,
    tally-update (λ k. k) p.tasks_completed n i ((p.tasks_completed i + 1) % size_mod),
    score-le-tally uncounted p.workers n i,
    score-le-tally (λ k. k) p.tasks_completed n i,
  )
  work-Counted {n} p i o exited xs e f lt v h = ground arith

  begin-Counted :
      {n m : ℕ} (p : ThreadPool T) (j : ℕ) (r : Request T)
      → j < m
      → p.callers j ≡ outside
      → Counted n m p
      → Counted n m (begin p j r)
  unfolding begin
  begin-Counted {n} {m} p j (try_enqueue_task t b) lt e v =
      ground (arith, v.completed, tally-update shutting p.callers m j (admitted t b))
  begin-Counted {n} {m} p j shutdown_immediately lt e v =
      ground (arith, v.completed, tally-update shutting p.callers m j clearing)
  begin-Counted {n} {m} p j shutdown_process_remaining_tasks lt e v =
      ground (arith, v.completed, tally-update shutting p.callers m j draining)

  continue-Counted :
      {n m : ℕ} {q : ThreadPool T} (p : ThreadPool T) (j : ℕ) (c : CallerPc T)
      → p.callers j ≡ c
      → j < m
      → Counted n m p
      → continue p j ≡ some q
      → Counted n m q
  unfolding continue push try_push_locked clear shut_down try_push_open empty
  continue-Counted p j outside e lt v h = ground arith
  continue-Counted {m = m} p j (admitted t true) e lt v h =
      ground (arith, v.completed, tally-update shutting p.callers m j outside)
  continue-Counted {m = m} p j (admitted t false) e lt v h = ground (
    arith,
    v.completed,
    tally-update shutting p.callers m j outside,
    tally-update shutting p.callers m j (unlocked t),
  )
  continue-Counted {m = m} p j (unlocked t) e lt v h =
      ground (arith, v.completed, tally-update shutting p.callers m j outside)
  continue-Counted {m = m} p j clearing e lt v h =
      ground (arith, v.completed, tally-update shutting p.callers m j closing)
  continue-Counted {m = m} p j draining e lt v h =
      ground (arith, v.completed, tally-update shutting p.callers m j closing)
  continue-Counted {m = m} p j closing e lt v h =
      ground (arith, v.completed, tally-update shutting p.callers m j (joining 0))
  continue-Counted {m = m} p j (joining k) e lt v h = ground (
    arith,
    v.completed,
    tally-update shutting p.callers m j outside,
    tally-update shutting p.callers m j (joining (suc k)),
  )

  Step-Counted : {n m : ℕ} {p q : ThreadPool T} → Step m p q → Counted n m p → Counted n m q
  Step-Counted {p = p} (works i o lt h) v =
      work-Counted p i o (p.workers i) p.task_queue.queue refl refl
        (subst (λ k. i < k) v.threads lt) v h
  Step-Counted {n} {m} {p} (begins j r lt out e) v =
      subst (Counted n m) (sym e) (begin-Counted p j r lt out v)
  Step-Counted {p = p} (continues j lt h) v = continue-Counted p j (p.callers j) refl lt v h

  -- In every reachable state: at most one caller is past the exchange of active in a shutdown, and
  -- none while the pool is active; and while fewer than 2^64 tasks have run, the entries of
  -- tasksCompleted add up to the tasks that ran, less those whose worker has yet to count them.
  pub Reach-Counted : {n capacity m : ℕ} {p : ThreadPool T} → Reach n capacity m p → Counted n m p
  Reach-Counted {n} {capacity} {m} (start storage affinity name) =
      construct-Counted n m capacity storage affinity name
  Reach-Counted (next r s) = Step-Counted s (Reach-Counted r)

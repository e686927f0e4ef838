-- ===== src/Pool/Conservation.antt =====
-- Where the accepted tasks are: no task is lost, made up or run twice, and tasks leave the queue in
-- the order in which they went in (ThreadPoolBenchmark/ThreadPool.h).
use thread_pool_backtesting.Base.{
  ℕ, ◌+◌, ◌<◌, ◌≡◌, refl, sym, subst, Bool, true, false, some, List, [], ◌∷◌, ◌++◌, arith, weigh,
  weigh-append, tally, tally-update, tally_none,
}
use mathlib.Core.List.{append-nil, append_assoc}
use thread_pool_backtesting.Queue.{
  wait_pop, push, try_push_locked, clear, shut_down, new, try_push_open, empty,
}
use thread_pool_backtesting.Pool.{
  ThreadPool, Outcome, Request, WorkerPc, starting, waiting, running, counting, exited, CallerPc,
  outside, admitted, unlocked, clearing, draining, closing, joining, try_enqueue_task,
  shutdown_immediately, shutdown_process_remaining_tasks, construct, work, start_worker, begin,
  continue,
}
use thread_pool_backtesting.Pool.System.{Step, works, begins, continues, Reach, start, next}

module _ {T : Type 0} (w : T → ℕ) where
  -- The task that a worker has in hand.
  abbrev pub in_hand : WorkerPc T → ℕ
  in_hand starting = 0
  in_hand waiting = 0
  in_hand (running t) = w t
  in_hand counting = 0
  in_hand exited = 0

  abbrev pub ran : T × Outcome → ℕ
  ran r = w r.0

  pub record Conserved (n : ℕ) (p : ThreadPool T) : Type 0 where
    pub threads : p.current_threads ≡ n
    pub balance :
        weigh w p.log.accepted
        ≡ weigh w p.task_queue.queue
          + tally in_hand p.workers n
          + weigh ran p.log.finished
          + weigh w p.log.discarded
          + weigh w p.log.dropped
    pub order : p.log.entered ≡ p.log.left ++ p.task_queue.queue

  construct-Conserved :
      (n capacity : ℕ) (storage affinity : Bool) (name : _)
      → Conserved n (construct storage name n capacity affinity)
  unfolding construct new
  construct-Conserved n capacity storage affinity name = record {
    threads = refl;
    balance = omega (arith, tally_none in_hand (λ _. starting) n (λ _ _. refl));
    order = refl;
  }

  work-Conserved :
      {n : ℕ} {q : ThreadPool T} (p : ThreadPool T) (i : ℕ) (o : Outcome) (pc : WorkerPc T)
      (xs : List T)
      → p.workers i ≡ pc
      → p.task_queue.queue ≡ xs
      → i < n
      → Conserved n p
      → work p i o ≡ some q
      → Conserved n q
  unfolding work start_worker wait_pop
  work-Conserved {n} p i o starting xs e f lt v h =
      ground (arith, tally-update in_hand p.workers n i waiting)
  work-Conserved {n} p i o waiting [] e f lt v h =
      ground (arith, tally-update in_hand p.workers n i exited)
  work-Conserved {n} p i o waiting (t ∷ xs) e f lt v h =
      ground
        (arith, tally-update in_hand p.workers n i (running t), append_assoc p.log.left (t ∷ []) xs)
  work-Conserved {n} p i o (running t) xs e f lt v h = ground (
    arith,
    tally-update in_hand p.workers n i counting,
    weigh-append ran p.log.finished ((t, o) ∷ []),
  )
  work-Conserved {n} p i o counting xs e f lt v h =
      ground (arith, tally-update in_hand p.workers n i waiting)
  work-Conserved {n} p i o exited xs e f lt v h = ground arith

  begin-Conserved :
      {n : ℕ} (p : ThreadPool T) (j : ℕ) (r : Request T) → Conserved n p → Conserved n (begin p j r)
  unfolding begin
  begin-Conserved p j (try_enqueue_task t b) v = ground arith
  begin-Conserved p j shutdown_immediately v = ground arith
  begin-Conserved p j shutdown_process_remaining_tasks v = ground arith

  continue-Conserved :
      {n : ℕ} {q : ThreadPool T} (p : ThreadPool T) (j : ℕ) (pc : CallerPc T)
      → p.callers j ≡ pc
      → Conserved n p
      → continue p j ≡ some q
      → Conserved n q
  unfolding continue push try_push_locked clear shut_down try_push_open empty
  continue-Conserved p j outside e v h = ground arith
  continue-Conserved p j (admitted t true) e v h = ground (
    arith,
    weigh-append w p.log.accepted (t ∷ []),
    weigh-append w p.log.dropped (t ∷ []),
    weigh-append w p.task_queue.queue (t ∷ []),
    append_assoc p.log.left p.task_queue.queue (t ∷ []),
  )
  continue-Conserved p j (admitted t false) e v h = ground arith
  continue-Conserved p j (unlocked t) e v h = ground (
    arith,
    weigh-append w p.log.accepted (t ∷ []),
    weigh-append w p.task_queue.queue (t ∷ []),
    append_assoc p.log.left p.task_queue.queue (t ∷ []),
  )
  continue-Conserved p j clearing e v h = ground (
    arith,
    weigh-append w p.log.discarded p.task_queue.queue,
    append-nil (p.log.left ++ p.task_queue.queue),
  )
  continue-Conserved p j draining e v h = ground arith
  continue-Conserved p j closing e v h = ground arith
  continue-Conserved p j (joining k) e v h = ground arith

  Step-Conserved : {n m : ℕ} {p q : ThreadPool T} → Step m p q → Conserved n p → Conserved n q
  Step-Conserved {p = p} (works i o lt h) v =
      work-Conserved p i o (p.workers i) p.task_queue.queue refl refl
        (subst (λ k. i < k) v.threads lt) v h
  Step-Conserved {p = p} (begins j r lt out e) v =
      subst (Conserved _) (sym e) (begin-Conserved p j r v)
  Step-Conserved {p = p} (continues j lt h) v = continue-Conserved p j (p.callers j) refl v h

  -- In every state that any number of callers and workers can bring about: whatever weight is
  -- given to each task, the tasks reported as accepted weigh as much as those in the queue, in a
  -- worker's hand, run, discarded by an immediate shutdown and dropped by a blocking push
  -- together; and the tasks that went into the queue, in order, are those that left it, in order,
  -- then those in it.
  pub Reach-Conserved : {n capacity m : ℕ} {p : ThreadPool T} → Reach n capacity m p → Conserved n p
  Reach-Conserved {n} {capacity} (start storage affinity name) =
      construct-Conserved n capacity storage affinity name
  Reach-Conserved (next r s) = Step-Conserved s (Reach-Conserved r)

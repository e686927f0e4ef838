-- ===== src/Pool/Protocol.antt =====
-- The shutdown protocol and the counters, whatever the callers do (ThreadPoolBenchmark/ThreadPool.h).
use Prim.Native.String.{String}
use thread_pool_backtesting.Base.{
  ℕ, ◌≤◌, ◌<◌, ◌≡◌, refl, sym, subst, ◌∙◌, ◌≢◌, ℕ_discrete, Bool, true, false, some, List, [], ◌∷◌,
  arith,
}
use thread_pool_backtesting.Queue.{
  wait_pop, push, try_push_locked, clear, shut_down, new, try_push_open, empty,
}
use thread_pool_backtesting.Pool.{
  ThreadPool, Outcome, Request, WorkerPc, starting, waiting, running, counting, exited, CallerPc,
  outside, admitted, unlocked, clearing, draining, closing, joining, try_enqueue_task,
  shutdown_immediately, shutdown_process_remaining_tasks, construct, work, start_worker, begin,
  continue,
}
use thread_pool_backtesting.Pool.System.{Step, works, begins, continues, Reach, start, next}

module _ {T : Type 0} where
  -- Where a caller stands with its shutdown, and what that says of the pool.
  abbrev pub Stage : ThreadPool T → CallerPc T → Type 0
  Stage p outside = Unit
  Stage p (admitted t b) = Unit
  Stage p (unlocked t) = Unit
  Stage p clearing = p.active ≡ false
  Stage p draining = p.active ≡ false
  Stage p closing = p.active ≡ false
  Stage p (joining k) =
      (p.active ≡ false)
      × (p.task_queue.shutdown ≡ true)
      × (k ≤ p.current_threads)
      × ((i : ℕ) → i < k → p.workers i ≡ exited)

  pub record Orderly (p : ThreadPool T) : Type 0 where
    pub stages : (j : ℕ) → Stage p (p.callers j)
    pub exits : (i : ℕ) → p.workers i ≡ exited → p.task_queue.shutdown ≡ true
    pub open_while_active : p.active ≡ true → p.task_queue.shutdown ≡ false

  construct-Orderly :
      (n capacity : ℕ) (storage affinity : Bool) (name : String)
      → Orderly (construct storage name n capacity affinity)
  unfolding construct new
  construct-Orderly n capacity storage affinity name = record {
    stages = λ j. tt;
    exits = λ i e. cc;
    open_while_active = λ e. refl;
  }

  -- What no step takes back.
  record Advances (p q : ThreadPool T) : Type 0 where
    stays_inactive : p.active ≡ false → q.active ≡ false
    stays_shut : p.task_queue.shutdown ≡ true → q.task_queue.shutdown ≡ true
    same_threads : q.current_threads ≡ p.current_threads
    stays_exited : (k : ℕ) → p.workers k ≡ exited → q.workers k ≡ exited

  Advances-Stage : {p q : ThreadPool T} (c : CallerPc T) → Advances p q → Stage p c → Stage q c
  Advances-Stage outside a s = tt
  Advances-Stage (admitted t b) a s = tt
  Advances-Stage (unlocked t) a s = tt
  Advances-Stage clearing a s = a.stays_inactive s
  Advances-Stage draining a s = a.stays_inactive s
  Advances-Stage closing a s = a.stays_inactive s
  Advances-Stage (joining k) a s = (
    a.stays_inactive s.0,
    a.stays_shut s.1,
    omega (arith, a.same_threads, s.2),
    λ i lt. a.stays_exited i (s.3 i lt),
  )

  -- A worker's step leaves the callers and `active` alone.
  record Works (p q : ThreadPool T) : Type 0 where
    advances : Advances p q
    same_callers : q.callers ≡ p.callers
    same_active : q.active ≡ p.active
    same_shutdown : q.task_queue.shutdown ≡ p.task_queue.shutdown

  work-Works :
      {q : ThreadPool T} (p : ThreadPool T) (i : ℕ) (o : Outcome) (pc : WorkerPc T) (xs : List T)
      → p.workers i ≡ pc
      → p.task_queue.queue ≡ xs
      → work p i o ≡ some q
      → Works p q
  unfolding work start_worker wait_pop
  work-Works p i o starting xs e f h = ground arith
  work-Works p i o waiting [] e f h = ground arith
  work-Works p i o waiting (x ∷ xs) e f h = ground arith
  work-Works p i o (running t) xs e f h = ground arith
  work-Works p i o counting xs e f h = ground arith
  work-Works p i o exited xs e f h = ground arith

  work-exits :
      {q : ThreadPool T} (p : ThreadPool T) (i : ℕ) (o : Outcome) (pc : WorkerPc T) (xs : List T)
      → p.workers i ≡ pc
      → p.task_queue.queue ≡ xs
      → Orderly p
      → work p i o ≡ some q
      → (k : ℕ) → q.workers k ≡ exited
      → q.task_queue.shutdown ≡ true
  unfolding work start_worker wait_pop
  work-exits p i o starting xs e f v h k ek = ground (arith, v.exits k)
  work-exits p i o waiting [] e f v h k ek = ground (arith, v.exits k)
  work-exits p i o waiting (x ∷ xs) e f v h k ek = ground (arith, v.exits k)
  work-exits p i o (running t) xs e f v h k ek = ground (arith, v.exits k)
  work-exits p i o counting xs e f v h k ek = ground (arith, v.exits k)
  work-exits p i o exited xs e f v h k ek = ground arith

  work-Orderly :
      {q : ThreadPool T} (p : ThreadPool T) (i : ℕ) (o : Outcome)
      → Orderly p
      → work p i o ≡ some q
      → Orderly q
  work-Orderly {q} p i o v h = record {
    stages = λ j.
        subst (λ (c : ℕ → CallerPc T). Stage q (c j)) (sym k.same_callers)
          (Advances-Stage (p.callers j) k.advances (v.stages j));
    exits = work-exits p i o (p.workers i) p.task_queue.queue refl refl v h;
    open_while_active = λ e. k.same_shutdown ∙ v.open_while_active (sym k.same_active ∙ e);
  }
    where
      k : Works p q
      k = work-Works p i o (p.workers i) p.task_queue.queue refl refl h

  -- A caller's step leaves the workers alone and moves that caller only.
  record Calls (p q : ThreadPool T) (j : ℕ) : Type 0 where
    advances : Advances p q
    same_workers : q.workers ≡ p.workers
    others : (k : ℕ) → k ≢ j → q.callers k ≡ p.callers k
    own : Stage q (q.callers j)
    still_open : q.active ≡ true → q.task_queue.shutdown ≡ false

  Calls-Orderly : {p q : ThreadPool T} (j : ℕ) → Orderly p → Calls p q j → Orderly q
  Calls-Orderly {p} {q} j v k = record {
    stages = λ i. elim (ℕ_discrete i j) [
      | yes e ↦ subst (λ x. Stage q (q.callers x)) (sym e) k.own
      | no other ↦
          subst (Stage q) (sym (k.others i other))
            (Advances-Stage (p.callers i) k.advances (v.stages i))
    ];
    exits = λ i e.
        k.advances.stays_shut
          (v.exits i (subst (λ (f : ℕ → WorkerPc T). f i ≡ exited) k.same_workers e));
    open_while_active = k.still_open;
  }

  begin-Calls :
      (p : ThreadPool T) (j : ℕ) (r : Request T)
      → p.callers j ≡ outside
      → Orderly p
      → Calls p (begin p j r) j
  unfolding begin
  begin-Calls p j (try_enqueue_task t b) e v = ground (arith, v.open_while_active)
  begin-Calls p j shutdown_immediately e v = ground (arith, v.open_while_active)
  begin-Calls p j shutdown_process_remaining_tasks e v = ground (arith, v.open_while_active)

  continue-Calls :
      {q : ThreadPool T} (p : ThreadPool T) (j : ℕ) (c : CallerPc T)
      → p.callers j ≡ c
      → Stage p c
      → Orderly p
      → continue p j ≡ some q
      → Calls p q j
  unfolding continue push try_push_locked clear shut_down try_push_open empty
  continue-Calls p j outside e s v h = ground arith
  continue-Calls p j (admitted t true) e s v h = ground (arith, v.open_while_active)
  continue-Calls p j (admitted t false) e s v h = ground (arith, v.open_while_active)
  continue-Calls p j (unlocked t) e s v h = ground (arith, v.open_while_active)
  continue-Calls p j clearing e s v h = ground (arith, v.open_while_active)
  continue-Calls p j draining e s v h = ground (arith, v.open_while_active)
  continue-Calls p j closing e s v h = ground (arith, v.open_while_active)
  continue-Calls p j (joining k) e s v h = grind (arith, v.open_while_active)

  Step-Orderly : {m : ℕ} {p q : ThreadPool T} → Step m p q → Orderly p → Orderly q
  Step-Orderly {p = p} (works i o lt h) v = work-Orderly p i o v h
  Step-Orderly {p = p} (begins j r lt out e) v =
      subst Orderly (sym e) (Calls-Orderly j v (begin-Calls p j r out v))
  Step-Orderly {p = p} (continues j lt h) v =
      Calls-Orderly j v (continue-Calls p j (p.callers j) refl (v.stages j) v h)

  -- In every reachable state: a worker has left its loop only if the queue was shut down, the
  -- queue is open while the pool is active, a caller inside a shutdown finds the pool inactive,
  -- and one that has joined the first k workers finds all of them gone.
  pub Reach-Orderly : {n capacity m : ℕ} {p : ThreadPool T} → Reach n capacity m p → Orderly p
  Reach-Orderly {n} {capacity} (start storage affinity name) =
      construct-Orderly n capacity storage affinity name
  Reach-Orderly (next r s) = Step-Orderly s (Reach-Orderly r)

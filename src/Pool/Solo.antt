-- ===== src/Pool/Solo.antt =====
-- One thread that submits and then shuts down, which is how main.cpp uses the pool
-- (ThreadPoolBenchmark/ThreadPool.h). The thread is caller 0, and there is no other.
pub mod Completes
use Prim.Native.String.{String}
use thread_pool_backtesting.Base.{
  ℕ, suc, ◌+◌, ◌%◌, ◌≤◌, ◌<◌, ◌≡◌, refl, sym, subst, ap, ◌∙◌, ◌⊎◌, inl, inr, Bool, true, false,
  Option, none, some, List, [], ◌∷◌, ◌++◌, arith, length, length-append, tally, tally-update,
  tally_none, score-le-tally, update, size_mod, weigh,
}
use thread_pool_backtesting.Queue.{
  ThreadSafeQueue, wait_pop, push, try_push_locked, clear, shut_down, new, try_push_open, empty,
}
use thread_pool_backtesting.Queue.Invariant.{IsValid}
use thread_pool_backtesting.Pool.{
  ThreadPool, Outcome, Request, WorkerPc, starting, waiting, running, counting, exited, CallerPc,
  outside, admitted, unlocked, clearing, draining, closing, joining, try_enqueue_task,
  shutdown_immediately, shutdown_process_remaining_tasks, construct, work, start_worker, begin,
  continue, Log,
}
use thread_pool_backtesting.Pool.System.{Step, works, begins, continues, Reach, start, next}
use thread_pool_backtesting.Pool.Conservation.{in_hand, ran, Reach-Conserved}

module _ {T : Type 0} where
  abbrev pub IsOpen : ThreadPool T → Type 0
  IsOpen p = (p.active ≡ true) × (p.task_queue.shutdown ≡ false)

  abbrev pub IsOver : ThreadPool T → Type 0
  IsOver p =
      (p.active ≡ false)
      × (p.task_queue.shutdown ≡ true)
      × (p.task_queue.queue ≡ [])
      × ((i : ℕ) → i < p.current_threads → p.workers i ≡ exited)

  -- What the place of the only caller says of the pool.
  abbrev pub Place : ThreadPool T → CallerPc T → Type 0
  Place p outside = IsOpen p ⊎ IsOver p
  Place p (admitted t b) = IsOpen p
  Place p (unlocked t) = IsOpen p
  Place p clearing = (p.active ≡ false) × (p.task_queue.shutdown ≡ false) × (p.log.immediate ≡ true)
  Place p draining = (p.active ≡ false) × (p.task_queue.shutdown ≡ false)
  Place p closing = (p.active ≡ false) × (p.task_queue.shutdown ≡ false) × (p.task_queue.queue ≡ [])
  Place p (joining k) =
      (p.active ≡ false)
      × (p.task_queue.shutdown ≡ true)
      × (p.task_queue.queue ≡ [])
      × (k ≤ p.current_threads)
      × ((i : ℕ) → i < k → p.workers i ≡ exited)

  pub record Solo (p : ThreadPool T) : Type 0 where
    pub place : Place p (p.callers 0)
    pub sized : p.task_queue.size ≡ length p.task_queue.queue % size_mod
    pub bounded : length p.task_queue.queue ≤ length p.log.entered
    pub none_dropped : p.log.dropped ≡ []
    discards : p.log.immediate ≡ false → p.log.discarded ≡ []

  -- What a worker's step does to the facts above.
  pub record Kept (p q : ThreadPool T) : Type 0 where
    same_callers : q.callers ≡ p.callers
    same_active : q.active ≡ p.active
    same_shutdown : q.task_queue.shutdown ≡ p.task_queue.shutdown
    same_threads : q.current_threads ≡ p.current_threads
    same_immediate : q.log.immediate ≡ p.log.immediate
    same_entered : q.log.entered ≡ p.log.entered
    same_dropped : q.log.dropped ≡ p.log.dropped
    same_discarded : q.log.discarded ≡ p.log.discarded
    stays_empty : p.task_queue.queue ≡ [] → q.task_queue.queue ≡ []
    shorter : length q.task_queue.queue ≤ length p.task_queue.queue
    sized : q.task_queue.size ≡ length q.task_queue.queue % size_mod
    stays_exited : (k : ℕ) → p.workers k ≡ exited → q.workers k ≡ exited

  work-Kept :
      {q : ThreadPool T} (p : ThreadPool T) (i : ℕ) (o : Outcome) (pc : WorkerPc T) (xs : List T)
      → p.workers i ≡ pc
      → p.task_queue.queue ≡ xs
      → p.task_queue.size ≡ length p.task_queue.queue % size_mod
      → work p i o ≡ some q
      → Kept p q
  unfolding work start_worker wait_pop
  work-Kept p i o starting xs e f v h = ground arith
  work-Kept p i o waiting [] e f v h = ground arith
  work-Kept p i o waiting (x ∷ xs) e f v h = ground arith
  work-Kept p i o (running t) xs e f v h = ground arith
  work-Kept p i o counting xs e f v h = ground arith
  work-Kept p i o exited xs e f v h = ground arith

  Kept-Place : {p q : ThreadPool T} (c : CallerPc T) → Kept p q → Place p c → Place q c
  Kept-Place outside k (inl s) = inl (k.same_active ∙ s.0, k.same_shutdown ∙ s.1)
  Kept-Place outside k (inr s) = inr (
    k.same_active ∙ s.0,
    k.same_shutdown ∙ s.1,
    k.stays_empty s.2,
    λ i lt. k.stays_exited i (s.3 i (omega (arith, k.same_threads))),
  )
  Kept-Place (admitted t b) k s = (k.same_active ∙ s.0, k.same_shutdown ∙ s.1)
  Kept-Place (unlocked t) k s = (k.same_active ∙ s.0, k.same_shutdown ∙ s.1)
  Kept-Place clearing k s = (k.same_active ∙ s.0, k.same_shutdown ∙ s.1, k.same_immediate ∙ s.2)
  Kept-Place draining k s = (k.same_active ∙ s.0, k.same_shutdown ∙ s.1)
  Kept-Place closing k s = (k.same_active ∙ s.0, k.same_shutdown ∙ s.1, k.stays_empty s.2)
  Kept-Place (joining j) k s = (
    k.same_active ∙ s.0,
    k.same_shutdown ∙ s.1,
    k.stays_empty s.2,
    omega (arith, k.same_threads, s.3),
    λ i lt. k.stays_exited i (s.4 i lt),
  )

  pub work-Solo :
      {q : ThreadPool T} (p : ThreadPool T) (i : ℕ) (o : Outcome)
      → Solo p
      → work p i o ≡ some q
      → Solo q
  work-Solo {q} p i o v h = record {
    place =
        subst (λ (c : ℕ → CallerPc T). Place q (c 0)) (sym k.same_callers)
          (Kept-Place (p.callers 0) k v.place);
    sized = k.sized;
    bounded = omega (arith, k.shorter, ap length k.same_entered, v.bounded);
    none_dropped = k.same_dropped ∙ v.none_dropped;
    discards = λ e. k.same_discarded ∙ v.discards (sym k.same_immediate ∙ e);
  }
    where
      k : Kept p q
      k = work-Kept p i o (p.workers i) p.task_queue.queue refl refl v.sized h

  pub begin-Solo :
      (p : ThreadPool T) (r : Request T) → p.callers 0 ≡ outside → Solo p → Solo (begin p 0 r)
  unfolding begin
  begin-Solo p (try_enqueue_task t b) e v = ground (arith, v.place, v.discards)
  begin-Solo p shutdown_immediately e v = ground (arith, v.place, v.discards)
  begin-Solo p shutdown_process_remaining_tasks e v = ground (arith, v.place, v.discards)

  list_of_empty : (xs : List T) → length xs ≡ 0 → xs ≡ []
  list_of_empty [] h = refl
  list_of_empty (x ∷ xs) h = absurd (omega arith)

  -- The drain's test is exact: no `size_t` has gone round.
  empty-eq :
      (p : ThreadPool T)
      → Solo p
      → length p.log.entered < size_mod
      → empty p.task_queue ≡ true
      → p.task_queue.queue ≡ []
  unfolding empty
  empty-eq p v small h = list_of_empty p.task_queue.queue (ground (arith, v.sized, v.bounded))

  pub continue-Solo :
      {q : ThreadPool T} (p : ThreadPool T) (c : CallerPc T)
      → p.callers 0 ≡ c
      → Place p c
      → length p.log.entered < size_mod
      → Solo p
      → continue p 0 ≡ some q
      → Solo q
  unfolding continue push try_push_locked clear shut_down try_push_open
  continue-Solo p outside e s small v h = ground arith
  continue-Solo p (admitted t true) e s small v h = ground (
    arith,
    v.sized,
    v.bounded,
    v.none_dropped,
    v.discards,
    length-append p.task_queue.queue (t ∷ []),
    length-append p.log.entered (t ∷ []),
  )
  continue-Solo p (admitted t false) e s small v h =
      ground (arith, v.sized, v.bounded, v.none_dropped, v.discards)
  continue-Solo p (unlocked t) e s small v h = ground (
    arith,
    v.sized,
    v.bounded,
    v.none_dropped,
    v.discards,
    length-append p.task_queue.queue (t ∷ []),
    length-append p.log.entered (t ∷ []),
  )
  continue-Solo p clearing e s small v h =
      ground (arith, v.sized, v.bounded, v.none_dropped, v.discards)
  continue-Solo p draining e s small v h =
      ground (arith, v.sized, v.bounded, v.none_dropped, v.discards, empty-eq p v small)
  continue-Solo p closing e s small v h =
      ground (arith, v.sized, v.bounded, v.none_dropped, v.discards)
  continue-Solo p (joining k) e s small v h =
      grind (arith, v.sized, v.bounded, v.none_dropped, v.discards)

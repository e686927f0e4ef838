-- ===== src/Pool/Affinity.antt =====
-- Pinning workers to cores (ThreadPoolBenchmark/ThreadPool.h: the constructor, `nextCoreId`).
use Prim.Native.String.{String}
use thread_pool_backtesting.Base.{
  ℕ, ◌+◌, ◌≤◌, ◌<◌, ◌≡◌, ◌≢◌, refl, sym, subst, ◌∙◌, Bool, true, false, not, some, List, [], ◌∷◌,
  arith, tally, tally-update, score-le-tally, tally-le,
}
use thread_pool_backtesting.Queue.{wait_pop, push, try_push_locked, try_push_open}
use thread_pool_backtesting.Pool.{
  ThreadPool, Outcome, Request, WorkerPc, starting, waiting, running, counting, exited, CallerPc,
  outside, admitted, unlocked, clearing, draining, closing, joining, try_enqueue_task,
  shutdown_immediately, shutdown_process_remaining_tasks, construct, work, start_worker, begin,
  continue, num_logical_cores,
}
use thread_pool_backtesting.Pool.System.{Step, works, begins, continues, Reach, start, next}

module _ {T : Type 0} where
  -- The constructor does not hand its affinity argument on: whatever is asked for, there are
  -- contents of the storage with which the pool is set to the opposite, and the argument makes no
  -- difference.
  affinity_request_lost :
      (name : String) (n capacity : ℕ) (request : Bool)
      → ((construct {T = T} (not request) name n capacity request).enable_affinity ≢ request)
        × ((storage : Bool)
            → construct {T = T} storage name n capacity request
              ≡ construct storage name n capacity (not request))
  unfolding construct
  affinity_request_lost name n capacity true = (λ e. cc, λ storage. refl)
  affinity_request_lost name n capacity false = (λ e. cc, λ storage. refl)

  abbrev pub unstarted : WorkerPc T → ℕ
  unstarted starting = 1
  unstarted waiting = 0
  unstarted (running t) = 0
  unstarted counting = 0
  unstarted exited = 0

  pub record Pinned (n : ℕ) (p : ThreadPool T) : Type 0 where
    pub threads : p.current_threads ≡ n
    pub numbered : p.next_core_id + tally unstarted p.workers n ≤ n
    pub below : (i c : ℕ) → p.core_of i ≡ some c → c < p.next_core_id
    pub unique : (i j c : ℕ) → p.core_of i ≡ some c → p.core_of j ≡ some c → i ≡ j

  construct-Pinned :
      (n capacity : ℕ) (storage affinity : Bool) (name : String)
      → Pinned n (construct storage name n capacity affinity)
  unfolding construct
  construct-Pinned n capacity storage affinity name = record {
    threads = refl;
    numbered = omega (arith, tally-le unstarted (λ _. starting) n (λ pc. ground arith));
    below = λ i c e. cc;
    unique = λ i j c e f. cc;
  }

  start_worker-Pinned :
      {n : ℕ} (p : ThreadPool T) (i : ℕ)
      → n ≤ num_logical_cores
      → p.workers i ≡ starting
      → i < n
      → Pinned n p
      → Pinned n (start_worker p i)
  unfolding start_worker
  start_worker-Pinned {n} p i few e lt v = record {
    threads = ground (arith, v.threads);
    numbered = ground (arith, tally-update unstarted p.workers n i waiting, v.numbered);
    below = λ j c h. ground (
      arith,
      v.below j c,
      tally-update unstarted p.workers n i waiting,
      v.numbered,
      score-le-tally unstarted p.workers n i,
    );
    unique = λ j k c h l. ground (
      arith,
      v.unique j k c,
      v.below j c,
      v.below k c,
      tally-update unstarted p.workers n i waiting,
      v.numbered,
      score-le-tally unstarted p.workers n i,
    );
  }

  work-Pinned :
      {n : ℕ} {q : ThreadPool T} (p : ThreadPool T) (i : ℕ) (o : Outcome) (pc : WorkerPc T)
      (xs : List T)
      → n ≤ num_logical_cores
      → p.workers i ≡ pc
      → p.task_queue.queue ≡ xs
      → i < n
      → Pinned n p
      → work p i o ≡ some q
      → Pinned n q
  unfolding work wait_pop
  work-Pinned p i o starting xs few e f lt v h =
      subst (Pinned _) (ground arith) (start_worker-Pinned p i few e lt v)
  work-Pinned {n} p i o waiting [] few e f lt v h =
      ground (arith, v.below, v.unique, tally-update unstarted p.workers n i exited)
  work-Pinned {n} p i o waiting (x ∷ xs) few e f lt v h =
      ground (arith, v.below, v.unique, tally-update unstarted p.workers n i (running x))
  work-Pinned {n} p i o (running t) xs few e f lt v h =
      ground (arith, v.below, v.unique, tally-update unstarted p.workers n i counting)
  work-Pinned {n} p i o counting xs few e f lt v h =
      ground (arith, v.below, v.unique, tally-update unstarted p.workers n i waiting)
  work-Pinned p i o exited xs few e f lt v h = ground arith

  -- A caller's step leaves the workers and their cores alone.
  record Aside (p q : ThreadPool T) : Type 0 where
    same_threads : q.current_threads ≡ p.current_threads
    same_workers : q.workers ≡ p.workers
    same_next : q.next_core_id ≡ p.next_core_id
    same_cores : q.core_of ≡ p.core_of

  begin-Aside : (p : ThreadPool T) (j : ℕ) (r : Request T) → Aside p (begin p j r)
  unfolding begin
  begin-Aside p j (try_enqueue_task t b) = ground arith
  begin-Aside p j shutdown_immediately = ground arith
  begin-Aside p j shutdown_process_remaining_tasks = ground arith

  continue-Aside :
      {q : ThreadPool T} (p : ThreadPool T) (j : ℕ) (c : CallerPc T)
      → p.callers j ≡ c
      → continue p j ≡ some q
      → Aside p q
  unfolding continue push try_push_locked try_push_open
  continue-Aside p j outside e h = ground arith
  continue-Aside p j (admitted t true) e h = ground arith
  continue-Aside p j (admitted t false) e h = ground arith
  continue-Aside p j (unlocked t) e h = ground arith
  continue-Aside p j clearing e h = ground arith
  continue-Aside p j draining e h = ground arith
  continue-Aside p j closing e h = ground arith
  continue-Aside p j (joining k) e h = ground arith

  Aside-Pinned : {n : ℕ} {p q : ThreadPool T} → Aside p q → Pinned n p → Pinned n q
  Aside-Pinned {n} {p} {q} a v = record {
    threads = a.same_threads ∙ v.threads;
    numbered = rw (a.same_next, a.same_workers) v.numbered;
    below = rw (a.same_next, a.same_cores) v.below;
    unique = rw a.same_cores v.unique;
  }

  Step-Pinned :
      {n m : ℕ} {p q : ThreadPool T} → n ≤ num_logical_cores → Step m p q → Pinned n p → Pinned n q
  Step-Pinned {p = p} few (works i o lt h) v =
      work-Pinned p i o (p.workers i) p.task_queue.queue few refl refl
        (subst (λ k. i < k) v.threads lt) v h
  Step-Pinned {p = p} few (begins j r lt out e) v =
      subst (Pinned _) (sym e) (Aside-Pinned (begin-Aside p j r) v)
  Step-Pinned {p = p} few (continues j lt h) v =
      Aside-Pinned (continue-Aside p j (p.callers j) refl h) v

  Reach-Pinned :
      {n capacity m : ℕ} {p : ThreadPool T}
      → n ≤ num_logical_cores
      → Reach n capacity m p
      → Pinned n p
  Reach-Pinned {n} {capacity} few (start storage affinity name) =
      construct-Pinned n capacity storage affinity name
  Reach-Pinned few (next r s) = Step-Pinned few s (Reach-Pinned few r)

  -- With at most 24 workers, each pinned worker has a core of its own, among the 24.
  pub cores_distinct :
      {n capacity m : ℕ} {p : ThreadPool T}
      → n ≤ num_logical_cores
      → Reach n capacity m p
      → (i j c : ℕ) → p.core_of i ≡ some c
      → (c < num_logical_cores) × (p.core_of j ≡ some c → i ≡ j)
  cores_distinct few r i j c e =
      let v = Reach-Pinned few r in (omega (arith, v.below i c e, v.numbered), v.unique i j c e)

-- ===== src/Pool/Drain.antt =====
-- The workers of a pool whose queue was shut down come to an end (ThreadPoolBenchmark/ThreadPool.h,
-- `workerThread`; what `join` waits for).
use thread_pool_backtesting.Base.{
  ℕ, zero, suc, ◌+◌, ◌*◌, ◌≤◌, ◌<◌, ◌≡◌, ◌≢◌, refl, true, none, some, List, [], ◌∷◌, arith, length,
  tally, tally-update, dec_lt,
}
use thread_pool_backtesting.Queue.{wait_pop}
use thread_pool_backtesting.Pool.{
  ThreadPool, Outcome, WorkerPc, starting, waiting, running, counting, exited, work, start_worker,
}

module _ {T : Type 0} where
  -- How many pieces a worker still has before it, the tasks that it may yet take aside.
  abbrev pub rank : WorkerPc T → ℕ
  rank starting = 2
  rank waiting = 1
  rank (running t) = 3
  rank counting = 2
  rank exited = 0

  abbrev pub measure : ℕ → ThreadPool T → ℕ
  measure n p = 3 * length p.task_queue.queue + tally rank p.workers n

  -- A worker of a closed queue that has not left its loop can go on.
  pub work-some :
      (p : ThreadPool T) (i : ℕ) (o : Outcome) (pc : WorkerPc T) (xs : List T)
      → p.workers i ≡ pc
      → p.task_queue.queue ≡ xs
      → p.task_queue.shutdown ≡ true
      → 0 < rank pc
      → work p i o ≢ none
  unfolding work start_worker wait_pop
  work-some p i o starting xs e f s h = ground arith
  work-some p i o waiting [] e f s h = ground arith
  work-some p i o waiting (x ∷ xs) e f s h = ground arith
  work-some p i o (running t) xs e f s h = ground arith
  work-some p i o counting xs e f s h = ground arith
  work-some p i o exited xs e f s h = absurd (omega arith)

  -- Each piece brings the end nearer, and leaves the queue closed.
  pub work-measure :
      {n : ℕ} {q : ThreadPool T} (p : ThreadPool T) (i : ℕ) (o : Outcome) (pc : WorkerPc T)
      (xs : List T)
      → p.workers i ≡ pc
      → p.task_queue.queue ≡ xs
      → i < n
      → work p i o ≡ some q
      → (measure n q < measure n p)
        × (q.task_queue.shutdown ≡ p.task_queue.shutdown)
        × (q.current_threads ≡ p.current_threads)
  unfolding work start_worker wait_pop
  work-measure {n} p i o starting xs e f lt h =
      ground (arith, tally-update rank p.workers n i waiting)
  work-measure {n} p i o waiting [] e f lt h =
      ground (arith, tally-update rank p.workers n i exited)
  work-measure {n} p i o waiting (x ∷ xs) e f lt h =
      ground (arith, tally-update rank p.workers n i (running x))
  work-measure {n} p i o (running t) xs e f lt h =
      ground (arith, tally-update rank p.workers n i counting)
  work-measure {n} p i o counting xs e f lt h =
      ground (arith, tally-update rank p.workers n i waiting)
  work-measure {n} p i o exited xs e f lt h = ground arith

  -- `k` pieces of work by workers among the first `n`, with nobody else in between.
  pub data Runs (n : ℕ) : ℕ → ThreadPool T → ThreadPool T → Type 0 where
    none_left : (p : ThreadPool T) → Runs n zero p p
    one_more :
        {k : ℕ} {p q r : ThreadPool T} (i : ℕ) (o : Outcome)
        → i < n
        → work p i o ≡ some q
        → Runs n k q r
        → Runs n (suc k) p r

  -- However the workers' pieces are interleaved and however the tasks end, no sequence of them is
  -- longer than three for each task in the queue and at most three for each worker.
  pub Runs-bounded : {n k : ℕ} {p q : ThreadPool T} → Runs n k p q → k + measure n q ≤ measure n p
  Runs-bounded (none_left p) = omega arith
  Runs-bounded (one_more {p = p} i o lt h r) = omega (
    arith,
    Runs-bounded r,
    (work-measure p i o (p.workers i) p.task_queue.queue refl refl lt h).0,
  )

  pub exited_of_rank : (pc : WorkerPc T) → rank pc ≡ 0 → pc ≡ exited
  exited_of_rank starting h = absurd (omega arith)
  exited_of_rank waiting h = absurd (omega arith)
  exited_of_rank (running t) h = absurd (omega arith)
  exited_of_rank counting h = absurd (omega arith)
  exited_of_rank exited h = refl

  abbrev pub AllExited : ℕ → ThreadPool T → Type 0
  AllExited n p = (i : ℕ) → i < n → p.workers i ≡ exited

  -- And where no worker can go on, all have left: there is no deadlock.
  pub no_deadlock :
      (n : ℕ) (o : Outcome) (p : ThreadPool T)
      → p.task_queue.shutdown ≡ true
      → ((i : ℕ) → i < n → work p i o ≡ none)
      → AllExited n p
  no_deadlock n o p s stuck i lt = elim (dec_lt 0 (rank (p.workers i))) [
    | yes busy ↦
        absurd (work-some p i o (p.workers i) p.task_queue.queue refl refl s busy (stuck i lt))
    | no h ↦ exited_of_rank (p.workers i) (omega arith)
  ]

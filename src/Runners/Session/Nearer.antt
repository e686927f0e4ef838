-- ===== src/Runners/Session/Nearer.antt =====
-- How far a runner of ThreadPoolBenchmark/main.cpp that uses the program's own pool is from its end, and
-- which of its moves, and of its workers', bring it nearer.
use thread_pool_backtesting.Base.{
  ℕ, ◌+◌, ◌-◌, ◌*◌, ◌<◌, ◌≡◌, ◌≢◌, refl, sym, subst, ap, ◌⊎◌, inl, inr, true, false, none, some,
  List, [], ◌∷◌, arith, length, length-append, Option-cases, Bool-cases, dec_lt,
}
use thread_pool_backtesting.Queue.{
  wait_pop, push, try_push_locked, try_push_open, clear, shut_down, empty,
}
use thread_pool_backtesting.Pool.{
  ThreadPool, Outcome, returned, Request, WorkerPc, starting, waiting, running, counting, exited,
  CallerPc, outside, admitted, unlocked, clearing, draining, closing, joining, try_enqueue_task,
  shutdown_immediately, shutdown_process_remaining_tasks, work, start_worker, begin, continue, go,
}
use thread_pool_backtesting.Pool.Protocol.{Orderly}
use thread_pool_backtesting.Pool.Drain.{rank, measure, work-some, work-measure, exited_of_rank}
use thread_pool_backtesting.Pool.Solo.{Place, Solo}
use thread_pool_backtesting.Runners.Session.{Move, worker_moves, main_begins, main_continues}
use thread_pool_backtesting.Runners.Session.Progress.{Progress, work-Same}

module _ {T : Type 0} (n : ℕ) where
  -- How far the main thread still is from the end of the call that it is in.
  abbrev pub distance : CallerPc T → ℕ
  distance outside = 0
  distance (admitted t b) = 5
  distance (unlocked t) = 4
  distance clearing = n + 4
  distance draining = n + 4
  distance closing = n + 3
  distance (joining k) = 2 + (n - k)

  abbrev pub ahead : ThreadPool T → List (Request T) → ℕ
  ahead p rest = (n + 6) * length rest + distance (p.callers 0) + measure n p

  abbrev pub Nearer : ThreadPool T → List (Request T) → Type 0
  Nearer p rest =
      (q : ThreadPool T) × (rest' : List (Request T)) × Move p rest q rest'
      × (ahead q rest' < ahead p rest)

  pub begin-ahead :
      (p : ThreadPool T) (r : Request T) (rest : List (Request T))
      → p.callers 0 ≡ outside
      → ahead (begin p 0 r) rest < ahead p (r ∷ rest)
  unfolding begin
  begin-ahead p (try_enqueue_task t b) rest e = ground arith
  begin-ahead p shutdown_immediately rest e = ground arith
  begin-ahead p shutdown_process_remaining_tasks rest e = ground arith

  pub continue-ahead :
      {q : ThreadPool T} (p : ThreadPool T) (c : CallerPc T)
      → p.callers 0 ≡ c
      → c ≢ draining
      → p.current_threads ≡ n
      → continue p 0 ≡ some q
      → distance (q.callers 0) + measure n q < distance (p.callers 0) + measure n p
  unfolding continue push try_push_locked clear shut_down try_push_open empty
  continue-ahead p outside e d k h = ground arith
  continue-ahead p (admitted t true) e d k h =
      ground (arith, length-append p.task_queue.queue (t ∷ []))
  continue-ahead p (admitted t false) e d k h = ground arith
  continue-ahead p (unlocked t) e d k h = ground (arith, length-append p.task_queue.queue (t ∷ []))
  continue-ahead p clearing e d k h = ground arith
  continue-ahead p draining e d k h = absurd (d refl)
  continue-ahead p closing e d k h = ground arith
  continue-ahead p (joining j) e d k h = grind arith

  -- A worker that has not left its loop, while there is a task in the queue.
  busy-some :
      (p : ThreadPool T) (o : Outcome) (pc : WorkerPc T) (x : T) (xs : List T)
      → p.workers 0 ≡ pc
      → p.task_queue.queue ≡ x ∷ xs
      → pc ≢ exited
      → work p 0 o ≢ none
  unfolding work start_worker wait_pop
  busy-some p o starting x xs e f h = ground arith
  busy-some p o waiting x xs e f h = ground arith
  busy-some p o (running t) x xs e f h = ground arith
  busy-some p o counting x xs e f h = ground arith
  busy-some p o exited x xs e f h = absurd (h refl)

  pub worker-ahead :
      {q : ThreadPool T} (p : ThreadPool T) (rest : List (Request T)) (i : ℕ) (o : Outcome)
      → i < n
      → work p i o ≡ some q
      → ahead q rest < ahead p rest
  worker-ahead {q} p rest i o lt h =
      let s = work-Same p i o (p.workers i) p.task_queue.queue refl refl h in
      let m = work-measure p i o (p.workers i) p.task_queue.queue refl refl lt h in
      let c : q.callers 0 ≡ p.callers 0 = ap (λ (f : ℕ → CallerPc T). f 0) s.callers in
      omega (arith, ap distance c, m.0)

  worker-Nearer :
      (p : ThreadPool T) (rest : List (Request T)) (i : ℕ)
      → p.current_threads ≡ n
      → i < n
      → work p i returned ≢ none
      → Nearer p rest
  worker-Nearer p rest i k lt can = elim (Option-cases (work p i returned)) [
    | inl stuck ↦ absurd (can stuck)
    | inr (q, h) ↦ (
      q,
      rest,
      worker_moves i returned (subst (λ m. i < m) (sym k) lt) h refl,
      worker-ahead p rest i returned lt h,
    )
  ]

  main-Nearer :
      (p : ThreadPool T) (rest : List (Request T)) (c : CallerPc T)
      → p.callers 0 ≡ c
      → c ≢ draining
      → p.current_threads ≡ n
      → continue p 0 ≢ none
      → Nearer p rest
  main-Nearer p rest c e d k can = elim (Option-cases (continue p 0)) [
    | inl stuck ↦ absurd (can stuck)
    | inr (q, h) ↦ (q, rest, main_continues h refl, omega (arith, continue-ahead p c e d k h))
  ]

  -- The main thread goes on if it is not waiting.
  continue-some :
      {tasks : List T} {rest : List (Request T)} (p : ThreadPool T) (c : CallerPc T)
      → p.callers 0 ≡ c
      → c ≢ outside
      → ((k : ℕ) → c ≡ joining k → k < p.current_threads → p.workers k ≡ exited)
      → Progress tasks p rest
      → continue p 0 ≢ none
  unfolding continue push try_push_locked try_push_open
  continue-some p outside e d j v = absurd (d refl)
  continue-some p (admitted t true) e d j v = ground (arith, v.unlimited)
  continue-some p (admitted t false) e d j v = ground arith
  continue-some p (unlocked t) e d j v = ground arith
  continue-some p clearing e d j v = ground arith
  continue-some p draining e d j v = ground arith
  continue-some p closing e d j v = ground arith
  continue-some p (joining k) e d j v = grind (arith, j k refl)

  drained-Nearer :
      (p : ThreadPool T) (rest : List (Request T))
      → p.callers 0 ≡ draining
      → Solo p
      → p.task_queue.queue ≡ []
      → Nearer p rest
  unfolding continue empty
  drained-Nearer p rest e v f =
      (go p 0 closing, rest, main_continues (ground (arith, v.sized)) refl, ground arith)

  -- A look at the queue while it drains goes on, or it changes nothing.
  pub drained-ahead :
      {q : ThreadPool T} (p : ThreadPool T) (rest : List (Request T))
      → p.callers 0 ≡ draining
      → continue p 0 ≡ some q
      → (ahead q rest < ahead p rest) ⊎ (q ≡ p)
  unfolding continue
  drained-ahead p rest e h = elim (Bool-cases (empty p.task_queue)) [
    | inl drained ↦ inl (ground arith)
    | inr more ↦ inr (let again : continue p 0 ≡ some p = rw (e, more) refl in cc)
  ]

  calling-Nearer :
      {tasks : List T} (p : ThreadPool T) (rest : List (Request T)) (c : CallerPc T)
      → p.callers 0 ≡ c
      → c ≢ draining
      → c ≢ outside
      → ((k : ℕ) → c ≢ joining k)
      → p.current_threads ≡ n
      → Progress tasks p rest
      → Nearer p rest
  calling-Nearer p rest c e d o j k v =
      main-Nearer p rest c e d k (continue-some p c e o (λ i f. absurd (j i f)) v)

  drain-Nearer :
      (p : ThreadPool T) (rest : List (Request T)) (xs : List T)
      → 0 < n
      → p.current_threads ≡ n
      → p.callers 0 ≡ draining
      → Place p draining
      → Solo p
      → Orderly p
      → p.task_queue.queue ≡ xs
      → Nearer p rest
  drain-Nearer p rest [] pos k e s v o f = drained-Nearer p rest e v f
  drain-Nearer p rest (x ∷ xs) pos k e s v o f = worker-Nearer p rest 0 k pos (
      busy-some p returned (p.workers 0) x xs refl f
        (λ gone. let shut = o.exits 0 gone in let not_shut = s.1 in cc))

  join-Nearer :
      {tasks : List T} (p : ThreadPool T) (rest : List (Request T)) (j : ℕ)
      → p.current_threads ≡ n
      → p.callers 0 ≡ joining j
      → Place p (joining j)
      → Progress tasks p rest
      → Nearer p rest
  join-Nearer p rest j k e s v = elim (dec_lt j n) [
    | no last ↦
        main-Nearer p rest (joining j) e (λ d. cc) k
          (continue-some p (joining j) e (λ d. cc)
            (λ i f lt. let same : j ≡ i = cc in absurd (last (omega arith))) v)
    | yes more ↦ elim (dec_lt 0 (rank (p.workers j))) [
      | yes busy ↦
          worker-Nearer p rest j k more
            (work-some p j returned (p.workers j) p.task_queue.queue refl refl s.1 busy)
      | no h ↦
          main-Nearer p rest (joining j) e (λ d. cc) k
            (continue-some p (joining j) e (λ d. cc)
              (λ i f lt.
                let same : j ≡ i = cc in
                subst (λ m. p.workers m ≡ exited) same (exited_of_rank (p.workers j) (omega arith)))
              v)
    ]
  ]

  pub session-Nearer :
      {tasks : List T} (p : ThreadPool T) (rest : List (Request T)) (c : CallerPc T)
      → 0 < n
      → p.current_threads ≡ n
      → p.callers 0 ≡ c
      → Place p c
      → Solo p
      → Orderly p
      → Progress tasks p rest
      → ((rest ≡ []) × (c ≡ outside)) ⊎ Nearer p rest
  session-Nearer p [] outside pos k e s v o g = inl (refl, refl)
  session-Nearer p (r ∷ rest) outside pos k e s v o g =
      inr (begin p 0 r, rest, main_begins r refl e refl, begin-ahead p r rest e)
  session-Nearer p rest (admitted t b) pos k e s v o g =
      inr (calling-Nearer p rest (admitted t b) e (λ d. cc) (λ d. cc) (λ i d. cc) k g)
  session-Nearer p rest (unlocked t) pos k e s v o g =
      inr (calling-Nearer p rest (unlocked t) e (λ d. cc) (λ d. cc) (λ i d. cc) k g)
  session-Nearer p rest clearing pos k e s v o g =
      inr (calling-Nearer p rest clearing e (λ d. cc) (λ d. cc) (λ i d. cc) k g)
  session-Nearer p rest closing pos k e s v o g =
      inr (calling-Nearer p rest closing e (λ d. cc) (λ d. cc) (λ i d. cc) k g)
  session-Nearer p rest draining pos k e s v o g =
      inr (drain-Nearer p rest p.task_queue.queue pos k e s v o refl)
  session-Nearer p rest (joining j) pos k e s v o g = inr (join-Nearer p rest j k e s g)

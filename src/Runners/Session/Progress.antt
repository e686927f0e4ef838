-- ===== src/Runners/Session/Progress.antt =====
-- How far a runner has come (main_ThreadPool and main_ThreadPool_Affinity of
-- ThreadPoolBenchmark/main.cpp): what it has handed over, and what it has yet to.
use mathlib.Core.List.{append-nil, append_assoc}
use thread_pool_backtesting.Base.{
  ℕ, ◌≡◌, refl, sym, subst, ap, ◌∙◌, ◌⊎◌, inl, inr, true, false, some, List, [], ◌∷◌, ◌++◌, arith,
  ℕ_discrete,
}
use thread_pool_backtesting.Queue.{
  wait_pop, push, try_push_locked, try_push_open, clear, shut_down, empty,
}
use thread_pool_backtesting.Pool.{
  ThreadPool, Outcome, Request, WorkerPc, starting, waiting, running, counting, exited, CallerPc,
  outside, admitted, unlocked, clearing, draining, closing, joining, try_enqueue_task,
  shutdown_process_remaining_tasks, work, start_worker, begin, continue,
}
use thread_pool_backtesting.Pool.Solo.{Place}
use thread_pool_backtesting.Runners.{destroy, main_thread_pool}

module _ {T : Type 0} where
  -- The task of the call that the main thread is in, which is not in the queue yet.
  abbrev pub pending : CallerPc T → List T
  pending outside = []
  pending (admitted t b) = t ∷ []
  pending (unlocked t) = t ∷ []
  pending clearing = []
  pending draining = []
  pending closing = []
  pending (joining k) = []

  abbrev pub Submitting : List T → ThreadPool T → List (Request T) → Type 0
  Submitting tasks p rest =
      (ts : List T) × (rest ≡ main_thread_pool ts)
      × (p.active ≡ true)
      × (p.log.accepted ++ (pending (p.callers 0) ++ ts) ≡ tasks)

  -- All calls are made, or all but that of the destructor.
  abbrev pub Ended : List (Request T) → Type 0
  Ended rest = (rest ≡ []) ⊎ (rest ≡ destroy ∷ [])

  abbrev pub Closing : List T → ThreadPool T → List (Request T) → Type 0
  Closing tasks p rest = Ended rest × (p.active ≡ false) × (p.log.accepted ≡ tasks)

  pub record Progress (tasks : List T) (p : ThreadPool T) (rest : List (Request T)) : Type 0 where
    pub unlimited : p.task_queue.max_size ≡ 0
    pub not_immediate : p.log.immediate ≡ false
    pub same : p.log.entered ≡ p.log.accepted
    pub phase : Submitting tasks p rest ⊎ Closing tasks p rest

  -- What a worker's step leaves alone.
  pub record Same (p q : ThreadPool T) : Type 0 where
    limits : q.task_queue.max_size ≡ p.task_queue.max_size
    immediates : q.log.immediate ≡ p.log.immediate
    entries : q.log.entered ≡ p.log.entered
    acceptances : q.log.accepted ≡ p.log.accepted
    actives : q.active ≡ p.active
    pub callers : q.callers ≡ p.callers

  pub work-Same :
      {q : ThreadPool T} (p : ThreadPool T) (i : ℕ) (o : Outcome) (pc : WorkerPc T) (xs : List T)
      → p.workers i ≡ pc
      → p.task_queue.queue ≡ xs
      → work p i o ≡ some q
      → Same p q
  unfolding work start_worker wait_pop
  work-Same p i o starting xs e f h = ground arith
  work-Same p i o waiting [] e f h = ground arith
  work-Same p i o waiting (x ∷ xs) e f h = ground arith
  work-Same p i o (running t) xs e f h = ground arith
  work-Same p i o counting xs e f h = ground arith
  work-Same p i o exited xs e f h = ground arith

  Same-phase :
      {tasks : List T} {p q : ThreadPool T} {rest rest' : List (Request T)}
      → Same p q
      → rest' ≡ rest
      → Submitting tasks p rest ⊎ Closing tasks p rest
      → Submitting tasks q rest' ⊎ Closing tasks q rest'
  Same-phase {tasks} {p} {q} s e (inl (ts, f, a, t)) = inl (
    ts,
    e ∙ f,
    s.actives ∙ a,
    subst (λ (c : ℕ → CallerPc T). q.log.accepted ++ (pending (c 0) ++ ts) ≡ tasks) (sym s.callers)
        (ap (λ xs. xs ++ (pending (p.callers 0) ++ ts)) s.acceptances ∙ t),
  )
  Same-phase s e (inr (f, a, t)) = inr (subst Ended (sym e) f, s.actives ∙ a, s.acceptances ∙ t)

  pub work-Progress :
      {tasks : List T} {q : ThreadPool T} {rest rest' : List (Request T)} (p : ThreadPool T) (i : ℕ)
      (o : Outcome)
      → Progress tasks p rest
      → work p i o ≡ some q
      → rest' ≡ rest
      → Progress tasks q rest'
  work-Progress {q = q} p i o v h e = record {
    unlimited = s.limits ∙ v.unlimited;
    not_immediate = s.immediates ∙ v.not_immediate;
    same = s.entries ∙ v.same ∙ sym s.acceptances;
    phase = Same-phase s e v.phase;
  }
    where
      s : Same p q
      s = work-Same p i o (p.workers i) p.task_queue.queue refl refl h

  begin_task :
      {tasks : List T} (p : ThreadPool T) (t : T) (ts : List T)
      → p.callers 0 ≡ outside
      → p.active ≡ true
      → p.log.accepted ++ (pending (p.callers 0) ++ t ∷ ts) ≡ tasks
      → Progress tasks p (main_thread_pool (t ∷ ts))
      → Progress tasks (begin p 0 (try_enqueue_task t false)) (main_thread_pool ts)
  unfolding begin main_thread_pool ℕ_discrete
  begin_task {tasks} p t ts out a e v = record {
    unlimited = ground (arith, v.unlimited);
    not_immediate = ground (arith, v.not_immediate);
    same = ground (arith, v.same);
    phase = inl (ts, refl, ground arith, rw a from);
  }
    where
      from : p.log.accepted ++ t ∷ ts ≡ tasks
      from = subst (λ (c : CallerPc T). p.log.accepted ++ (pending c ++ t ∷ ts) ≡ tasks) out e

  begin_shutdown :
      {tasks : List T} (p : ThreadPool T)
      → p.callers 0 ≡ outside
      → p.active ≡ true
      → p.log.accepted ++ (pending (p.callers 0) ++ []) ≡ tasks
      → Progress tasks p (main_thread_pool [])
      → Progress tasks (begin p 0 shutdown_process_remaining_tasks) (destroy ∷ [])
  unfolding begin main_thread_pool ℕ_discrete
  begin_shutdown {tasks} p out a e v = record {
    unlimited = ground (arith, v.unlimited);
    not_immediate = ground (arith, v.not_immediate);
    same = ground (arith, v.same);
    phase = inr (inr refl, ground arith, rw a (sym (append-nil p.log.accepted) ∙ from));
  }
    where
      from : p.log.accepted ++ [] ≡ tasks
      from = subst (λ (c : CallerPc T). p.log.accepted ++ (pending c ++ []) ≡ tasks) out e

  -- The pool is inactive by then, so its destructor returns at once.
  begin-destroy :
      {tasks : List T} {rest : List (Request T)} (p : ThreadPool T)
      → p.active ≡ false
      → p.log.accepted ≡ tasks
      → Progress tasks p rest
      → Progress tasks (begin p 0 destroy) []
  unfolding begin ℕ_discrete
  begin-destroy {tasks} p a t v = record {
    unlimited = ground (arith, v.unlimited);
    not_immediate = ground (arith, v.not_immediate);
    same = ground (arith, v.same);
    phase = inr (inl refl, ground arith, rw a t);
  }

  pub begin-Progress :
      {tasks : List T} {rest rest' : List (Request T)} (p : ThreadPool T) (r : Request T)
      → rest ≡ r ∷ rest'
      → p.callers 0 ≡ outside
      → Progress tasks p rest
      → Progress tasks (begin p 0 r) rest'
  unfolding main_thread_pool
  begin-Progress {tasks} {rest} {rest'} p r e out v = elim v.phase [
    | inr (inl f, a, t) ↦ cc
    | inr (inr f, a, t) ↦
        let er : destroy ≡ r = cc in
        let es : [] ≡ rest' = cc in
        subst (λ (r : Request T). Progress tasks (begin p 0 r) rest') er
          (subst (Progress tasks (begin p 0 destroy)) es (begin-destroy p a t v))
    | inl ([], f, a, t) ↦
        let er : shutdown_process_remaining_tasks ≡ r = cc in
        let es : destroy ∷ [] ≡ rest' = cc in
        subst (λ (r : Request T). Progress tasks (begin p 0 r) rest') er
          (subst (Progress tasks (begin p 0 shutdown_process_remaining_tasks)) es
            (begin_shutdown p out a t (subst (Progress tasks p) f v)))
    | inl (x ∷ xs, f, a, t) ↦
        let er : try_enqueue_task x false ≡ r = cc in
        let es : main_thread_pool xs ≡ rest' = cc in
        subst (λ (r : Request T). Progress tasks (begin p 0 r) rest') er
          (subst (Progress tasks (begin p 0 (try_enqueue_task x false))) es
            (begin_task p x xs out a t (subst (Progress tasks p) f v)))
  ]

  -- What the main thread's step does: the queue has no bound and is open while the pool is active, so
  -- what it pushes is accepted.
  pub record Hands (p q : ThreadPool T) : Type 0 where
    pub limits : q.task_queue.max_size ≡ p.task_queue.max_size
    pub immediates : q.log.immediate ≡ p.log.immediate
    pub sames : q.log.entered ≡ q.log.accepted
    pub actives : q.active ≡ p.active
    pub idles : p.active ≡ false → q.log.accepted ≡ p.log.accepted

  pub continue-Hands :
      {tasks : List T} {rest : List (Request T)} {q : ThreadPool T} (p : ThreadPool T)
      (c : CallerPc T)
      → p.callers 0 ≡ c
      → Place p c
      → Progress tasks p rest
      → continue p 0 ≡ some q
      → Hands p q
  unfolding continue push try_push_locked clear shut_down try_push_open empty
  continue-Hands p outside e s v h = ground arith
  continue-Hands p (admitted t true) e s v h = ground (arith, v.same, v.unlimited)
  continue-Hands p (admitted t false) e s v h = ground (arith, v.same)
  continue-Hands p (unlocked t) e s v h = ground (arith, v.same, v.unlimited)
  continue-Hands p clearing e s v h = ground (arith, v.not_immediate)
  continue-Hands p draining e s v h = ground (arith, v.same)
  continue-Hands p closing e s v h = ground (arith, v.same)
  continue-Hands p (joining k) e s v h = grind (arith, v.same)

  pub continue-hands :
      {tasks : List T} {rest : List (Request T)} {q : ThreadPool T} (p : ThreadPool T)
      (c : CallerPc T) (ts : List T)
      → p.callers 0 ≡ c
      → Place p c
      → Progress tasks p rest
      → continue p 0 ≡ some q
      → q.log.accepted ++ (pending (q.callers 0) ++ ts)
        ≡ p.log.accepted ++ (pending (p.callers 0) ++ ts)
  unfolding continue push try_push_locked clear shut_down try_push_open empty
  continue-hands p outside ts e s v h = ground arith
  continue-hands p (admitted t true) ts e s v h =
      ground (arith, v.unlimited, append_assoc p.log.accepted (t ∷ []) ts)
  continue-hands p (admitted t false) ts e s v h = ground arith
  continue-hands p (unlocked t) ts e s v h =
      ground (arith, v.unlimited, append_assoc p.log.accepted (t ∷ []) ts)
  continue-hands p clearing ts e s v h = ground (arith, v.not_immediate)
  continue-hands p draining ts e s v h = ground arith
  continue-hands p closing ts e s v h = ground arith
  continue-hands p (joining k) ts e s v h = grind arith

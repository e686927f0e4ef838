-- ===== src/Runners/Session/Result.antt =====
-- What main_ThreadPool and main_ThreadPool_Affinity of ThreadPoolBenchmark/main.cpp have done when they
-- return.
use thread_pool_backtesting.Base.{
  ℕ, ◌≤◌, ◌<◌, ◌≡◌, refl, sym, subst, ap, ◌∙◌, ◌⊎◌, inl, inr, some, List, [], ◌∷◌, ◌++◌, arith,
  length, length-append, weigh, size_mod,
}
use thread_pool_backtesting.Queue.{new}
use thread_pool_backtesting.Pool.{ThreadPool, Request, exited, outside, construct, continue}
use thread_pool_backtesting.Pool.Conservation.{ran}
use thread_pool_backtesting.Pool.Solo.{Place, Solo}
use thread_pool_backtesting.Pool.Solo.Completes.{Reach-Sound, Completed, solo_completes}
use thread_pool_backtesting.Runners.{main_thread_pool}
use thread_pool_backtesting.Runners.Session.{
  worker_moves, main_begins, main_continues, Session, opened, moved, Session-Reach,
}
use thread_pool_backtesting.Runners.Session.Progress.{
  pending, Submitting, Ended, Closing, Progress, Hands, work-Progress, begin-Progress,
  continue-Hands, continue-hands,
}

module _ {T : Type 0} where
  accepted-le :
      {tasks : List T} {rest : List (Request T)} (p : ThreadPool T)
      → Submitting tasks p rest ⊎ Closing tasks p rest
      → length p.log.accepted ≤ length tasks
  accepted-le {tasks} p (inl (ts, f, a, t)) =
      omega (arith, ap length t, length-append p.log.accepted (pending (p.callers 0) ++ ts))
  accepted-le p (inr (f, a, t)) = omega (arith, ap length t)

  continue-Progress :
      {tasks : List T} {rest rest' : List (Request T)} {q : ThreadPool T} (p : ThreadPool T)
      → Place p (p.callers 0)
      → Progress tasks p rest
      → continue p 0 ≡ some q
      → rest' ≡ rest
      → Progress tasks q rest'
  continue-Progress {tasks} {rest} {rest'} {q} p s v h e = record {
    unlimited = k.limits ∙ v.unlimited;
    not_immediate = k.immediates ∙ v.not_immediate;
    same = k.sames;
    phase = phase v.phase;
  }
    where
      k : Hands p q
      k = continue-Hands p (p.callers 0) refl s v h

      phase :
          Submitting tasks p rest ⊎ Closing tasks p rest
          → Submitting tasks q rest' ⊎ Closing tasks q rest'
      phase (inl (ts, f, a, t)) =
          inl (ts, e ∙ f, k.actives ∙ a, continue-hands p (p.callers 0) ts refl s v h ∙ t)
      phase (inr (f, a, t)) = inr (subst Ended (sym e) f, k.actives ∙ a, k.idles a ∙ t)

  pub Session-Solo :
      {n : ℕ} {tasks : List T} {p : ThreadPool T} {program rest : List (Request T)}
      → length tasks < size_mod
      → Session n program p rest
      → Progress tasks p rest
      → Solo p
  Session-Solo {p = p} small r v =
      Reach-Sound (Session-Reach r) (omega (arith, ap length v.same, accepted-le p v.phase))

  pub Session-Progress :
      {n : ℕ} {tasks : List T} {p : ThreadPool T} {rest : List (Request T)}
      → length tasks < size_mod
      → Session n (main_thread_pool tasks) p rest
      → Progress tasks p rest
  unfolding construct new
  Session-Progress {tasks = tasks} small (opened storage affinity name) = record {
    unlimited = refl;
    not_immediate = refl;
    same = refl;
    phase = inl (tasks, refl, refl, refl);
  }
  Session-Progress {tasks = tasks} {rest = rest} small (moved {p = p} r m) =
      let v = Session-Progress small r in
      elim m [
        | worker_moves i o lt h e ↦ work-Progress p i o v h e
        | main_begins c e out h ↦
            subst (λ (x : ThreadPool T). Progress tasks x rest) (sym h) (begin-Progress p c e out v)
        | main_continues h e ↦ continue-Progress p (Session-Solo small r v).place v h e
      ]

  finished-Closing :
      {tasks : List T} {rest : List (Request T)} (p : ThreadPool T)
      → rest ≡ []
      → Submitting tasks p rest ⊎ Closing tasks p rest
      → Closing tasks p rest
  unfolding main_thread_pool
  finished-Closing p e (inl ([], f, a, t)) = cc
  finished-Closing p e (inl (x ∷ ts, f, a, t)) = cc
  finished-Closing p e (inr c) = c

  -- When a runner that submits the tasks of a vector to its own pool, then shuts it down and
  -- destroys it, as main_ThreadPool does, has made all its calls on fewer than 2^64 tasks and is
  -- back from the last: each task has run exactly once (the weight is arbitrary), the tasks came
  -- out of the queue in the order of the vector, the queue is empty and each worker has left its
  -- loop.
  pub session_runs_each_once :
      {n : ℕ} {tasks : List T} {p : ThreadPool T} (w : T → ℕ)
      → Session n (main_thread_pool tasks) p []
      → p.callers 0 ≡ outside
      → length tasks < size_mod
      → (weigh (ran w) p.log.finished ≡ weigh w tasks)
        × (p.log.left ≡ tasks)
        × (p.task_queue.queue ≡ [])
        × ((i : ℕ) → i < n → p.workers i ≡ exited)
  session_runs_each_once {n} {tasks} {p} w r out small = (
    omega (arith, done.all_ran, ap (weigh w) end.2, ap (weigh w) (done.kept v.not_immediate)),
    sym done.in_order ∙ v.same ∙ end.2,
    done.nothing_left,
    done.gone,
  )
    where
      v : Progress tasks p []
      v = Session-Progress small r

      end : Closing tasks p []
      end = finished-Closing p refl v.phase

      done : Completed w n p
      done =
          solo_completes w (Session-Reach r) out end.1
            (omega (arith, ap length v.same, accepted-le p v.phase))

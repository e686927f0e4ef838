-- ===== src/Runners/Polling.antt =====
-- HP_ThreadPool of ThreadPoolBenchmark/main.cpp: it posts each task until it is accepted, and then polls until
-- all are done. The pool, hp_threadpool.h, is another project's and outside the model.
pub mod Result
mod Tests
use thread_pool_backtesting.Base.{
  ℕ, zero, suc, ◌+◌, ◌<◌, ◌≡◌, refl, sym, ap, ◌∙◌, Bool, true, false, Bool-cases, inl, inr, Option,
  none, some, List, [], ◌∷◌, arith, weigh, if◌then◌else◌,
}
use thread_pool_backtesting.Ranges.{◌>>=◌}

-- What the runner calls. `go_on` is what the pool's threads do while the caller yields.
pub record PollingPool (T : Type 0) : Type 1 where
  pub State : Type 0
  pub construct : (threads : ℕ) → State
  pub start : State → State
  pub post : T → State → State × Bool
  pub is_task_done : State → Bool
  pub stop : State → State
  pub go_on : State → State

-- What it relies on: the tasks accepted are those run and those waiting, none is left when the pool says so,
-- and while the caller yields at a full or unfinished pool the pool works off what it has.
pub record IsPollingPool {T : Type 0} (p : PollingPool T) : Type 1 where
  pub ran : p.State → List T
  pub waiting : p.State → List T
  pub load : p.State → ℕ
  pub fresh_ran : (n : ℕ) → ran (p.start (p.construct n)) ≡ []
  pub fresh_waiting : (n : ℕ) → waiting (p.start (p.construct n)) ≡ []
  pub accepts :
      (t : T) (s : p.State) (w : T → ℕ)
      → (p.post t s).1 ≡ true
      → weigh w (ran (p.post t s).0) + weigh w (waiting (p.post t s).0)
        ≡ w t + weigh w (ran s) + weigh w (waiting s)
  pub refuses : (t : T) (s : p.State) → (p.post t s).1 ≡ false → (p.post t s).0 ≡ s
  pub keeps :
      (s : p.State) (w : T → ℕ)
      → weigh w (ran (p.go_on s)) + weigh w (waiting (p.go_on s))
        ≡ weigh w (ran s) + weigh w (waiting s)
  pub full : (t : T) (s : p.State) → (p.post t s).1 ≡ false → load (p.go_on s) < load s
  pub unfinished : (s : p.State) → p.is_task_done s ≡ false → load (p.go_on s) < load s
  pub finished : (s : p.State) → p.is_task_done s ≡ true → waiting s ≡ []
  pub stops : (s : p.State) → ran (p.stop s) ≡ ran s

module _ {T : Type 0} (p : PollingPool T) where
  -- `while (!pool.post(task)) yield`, with fuel; `none` is fuel that ran out.
  unfoldable pub post_until : (fuel : ℕ) → T → p.State → Option p.State
  post_until zero task s = none
  post_until (suc fuel) task s =
      let (s', accepted) = p.post task s in
      let again = post_until fuel task (p.go_on s') in if accepted then some s' else again

  unfoldable pub post_all : (fuel : ℕ) → List T → p.State → Option p.State
  post_all fuel [] s = some s
  post_all fuel (task ∷ tasks) s = do s' ← post_until fuel task s; post_all fuel tasks s'

  -- `while (!pool.is_task_done()) yield`
  unfoldable pub poll_until : (fuel : ℕ) → p.State → Option p.State
  poll_until zero s = none
  poll_until (suc fuel) s =
      let again = poll_until fuel (p.go_on s) in if p.is_task_done s then some s else again

  unfoldable pub hp_thread_pool : (fuel threads : ℕ) → List T → Option p.State
  hp_thread_pool fuel threads tasks = do
    s ← post_all fuel tasks (p.start (p.construct threads))
    s' ← poll_until fuel s
    some (p.stop s')

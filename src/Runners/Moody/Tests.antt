-- ===== src/Runners/Moody/Tests.antt =====
-- A run of moody_ConcurrentQueue_ThreadPool of ThreadPoolBenchmark/main.cpp with one worker and two
-- tasks. A task is a number. The second task is taken out before the first.
use thread_pool_backtesting.Base.{
  ap, length, ◌≤◌, ◌+◌, ◌*◌, ◌⊎◌, ℕ, ◌<◌, ◌≡◌, refl, Option, none, some, List, [], ◌∷◌, arith,
  weigh, ℕ_discrete,
}
use thread_pool_backtesting.Runners.Moody.{
  enqueuing, left_loop, back, Moody, moody_start, take_out, moody_work, moody_main, MoodyReach,
  begun, worker_step, main_step,
}
use thread_pool_backtesting.Runners.Moody.Nearer.{MoodyStep, by_main}
use thread_pool_backtesting.Runners.Moody.Ends.{
  Idle, main_looks, worker_looks, Counted, fresh, goes, moody_ends,
}
use thread_pool_backtesting.Runners.Moody.Settled.{moody_runs_each_once}

data Turn : Type 0 where
  worker : Option ℕ → Turn
  main_thread : Turn

abbrev turn_of : Moody ℕ → Turn → Option (Moody ℕ)
turn_of s (worker found) = moody_work s 0 found
turn_of s main_thread = moody_main 1 s

abbrev or_same : Moody ℕ → Option (Moody ℕ) → Moody ℕ
or_same s none = s
or_same s (some s') = s'

-- The states after the first turns; a turn that is refused changes nothing.
abbrev after : Moody ℕ → List Turn → Moody ℕ
after s [] = s
after s (t ∷ ts) = after (or_same s (turn_of s t)) ts

step-MoodyReach :
    (tasks : List ℕ) (s : Moody ℕ) (t : Turn)
    → MoodyReach 1 tasks s
    → MoodyReach 1 tasks (or_same s (turn_of s t))
step-MoodyReach tasks s (worker found) before = go (moody_work s 0 found) refl
  where
    go : (r : Option (Moody ℕ)) → moody_work s 0 found ≡ r → MoodyReach 1 tasks (or_same s r)
    go none e = before
    go (some s') e = worker_step 0 found before (omega arith) e
step-MoodyReach tasks s main_thread before = go (moody_main 1 s) refl
  where
    go : (r : Option (Moody ℕ)) → moody_main 1 s ≡ r → MoodyReach 1 tasks (or_same s r)
    go none e = before
    go (some s') e = main_step before e

after-MoodyReach :
    (tasks : List ℕ) (s : Moody ℕ) (turns : List Turn)
    → MoodyReach 1 tasks s
    → MoodyReach 1 tasks (after s turns)
after-MoodyReach tasks s [] before = before
after-MoodyReach tasks s (t ∷ ts) before =
    after-MoodyReach tasks (or_same s (turn_of s t)) ts (step-MoodyReach tasks s t before)

abbrev two : List ℕ
two = 5 ∷ 6 ∷ []

abbrev turns : List Turn
turns =
    worker none
    ∷ worker none
    ∷ main_thread
    ∷ worker none
    ∷ main_thread
    ∷ worker (some 1)
    ∷ main_thread
    ∷ main_thread
    ∷ worker none
    ∷ worker none
    ∷ worker (some 0)
    ∷ worker none
    ∷ worker none
    ∷ main_thread
    ∷ worker none
    ∷ main_thread
    ∷ main_thread
    ∷ worker none
    ∷ worker none
    ∷ worker none
    ∷ worker none
    ∷ worker none
    ∷ main_thread
    ∷ main_thread
    ∷ []

abbrev end : Moody ℕ
end = after (moody_start two) turns

end_ran : end.ran ≡ 6 ∷ 5 ∷ []
unfolding moody_work moody_main take_out ℕ_discrete
end_ran = refl

end_back : end.main_pc ≡ back
unfolding moody_work moody_main take_out ℕ_discrete
end_back = refl

moody_runs_each_once_example :
    ((w : ℕ → ℕ) → weigh w end.ran ≡ weigh w two)
    × end.remaining_tasks ≡ 0
    × ((i : ℕ) → i < 1 → end.workers i ≡ left_loop)
moody_runs_each_once_example =
    moody_runs_each_once 1 two end (omega arith)
      (after-MoodyReach two (moody_start two) turns begun) end_back

-- The first task is put into the queue.
abbrev one_in : Moody ℕ
one_in = record (moody_start two) { queue = 5 ∷ []; main_pc = enqueuing (6 ∷ []) }

one_in-not-Idle : ¬ Idle 1 two (moody_start two) one_in
one_in-not-Idle (main_looks e) =
    let longer = ap (λ (s : Moody ℕ). length s.queue) e in absurd (omega (arith, longer))
one_in-not-Idle (worker_looks i lt d p e) = cc

one_piece : Counted 1 two 1 0 one_in
unfolding moody_main
one_piece = goes fresh (by_main refl) one_in-not-Idle

moody_ends_example :
    (1 ≤ 5 * (2 + 1) + 4 + 2 * 0)
    × ((one_in.main_pc ≡ back)
        ⊎ ((s' : Moody ℕ) × MoodyStep 1 one_in s' × (¬ Idle 1 two one_in s')))
moody_ends_example = moody_ends 1 two (omega arith) (omega arith) one_piece

-- ===== src/Workloads/Submission.antt =====
-- What the tests of ThreadPoolBenchmark hand to a pool, and how long they sleep.
use mathlib.Core.List.{append-nil}
use thread_pool_backtesting.Base.{
  ℕ, zero, suc, ◌+◌, ◌*◌, ◌≡◌, refl, sym, ap, ◌∙◌, List, [], ◌∷◌, map, arith, length,
  length-replicate, replicate,
}
use thread_pool_backtesting.Workloads.{
  Body, noop, add_loop, multiply_loops, sqrt_log_loop, submits, Sweep, sweep_noop, sweep_short,
  sweep_medium, sweep_heavy, sweep_mixed, mixed_tasks, sweep_tasks, test_grp, test_seq,
  gradual_submit, Dropoff, dropoff_body, test_perf_dropoff, submitted, slept,
}

submitted-singles : (tasks : List Body) → submitted (map (λ t. submits (t ∷ [])) tasks) ≡ tasks
submitted-singles [] = refl
submitted-singles (t ∷ tasks) = ap (◌∷◌ t) (submitted-singles tasks)

length-mixed_tasks : (i n : ℕ) → length (mixed_tasks i n) ≡ n
unfolding mixed_tasks
length-mixed_tasks i zero = refl
length-mixed_tasks i (suc n) = ap suc (length-mixed_tasks (i + 1) n)

length-sweep_tasks : (sweep : Sweep) (n : ℕ) → length (sweep_tasks sweep n) ≡ n
unfolding sweep_tasks
length-sweep_tasks sweep_noop n = length-replicate n noop
length-sweep_tasks sweep_short n = length-replicate n (add_loop 100)
length-sweep_tasks sweep_medium n = length-replicate n sqrt_log_loop
length-sweep_tasks sweep_heavy n = length-replicate n multiply_loops
length-sweep_tasks sweep_mixed n = length-mixed_tasks 0 n

length-map : {A B : Type 0} (f : A → B) (xs : List A) → length (map f xs) ≡ length xs
length-map f [] = refl
length-map f (x ∷ xs) = ap suc (length-map f xs)

-- The sequential and the grouped test of each sweep hand the pool the same `num_tasks` bodies in the
-- same order; the sequential one makes as many calls, the grouped one a single call.
pub sweeps_submit_alike :
    (sweep : Sweep) (num_tasks : ℕ)
    → (submitted (test_seq sweep num_tasks) ≡ submitted (test_grp sweep num_tasks))
      × (length (submitted (test_seq sweep num_tasks)) ≡ num_tasks)
      × (length (test_seq sweep num_tasks) ≡ num_tasks)
      × (length (test_grp sweep num_tasks) ≡ 1)
unfolding test_seq test_grp
sweeps_submit_alike sweep n =
    let same = submitted-singles (sweep_tasks sweep n) in
    (
      same ∙ sym (append-nil (sweep_tasks sweep n)),
      ap length same ∙ length-sweep_tasks sweep n,
      length-map (λ t. submits (t ∷ [])) (sweep_tasks sweep n) ∙ length-sweep_tasks sweep n,
      refl,
    )

gradual_submit_lem :
    (body : Body) (n : ℕ)
    → (submitted (gradual_submit n body) ≡ replicate n body)
      × (slept (gradual_submit n body) ≡ 10 * n)
unfolding gradual_submit
gradual_submit_lem body zero = (refl, refl)
gradual_submit_lem body (suc n) =
    let (s, t) = gradual_submit_lem body n in (ap (◌∷◌ body) s, omega (arith, t))

-- A gradual submission hands the pool `num_tasks` times the same body, and sleeps 10 microseconds after
-- each, ten a task in all, where the comments speak of a millisecond.
pub dropoff_sleeps :
    (dropoff : Dropoff) (num_tasks : ℕ)
    → (submitted (test_perf_dropoff dropoff num_tasks) ≡ replicate num_tasks (dropoff_body dropoff))
      × (slept (test_perf_dropoff dropoff num_tasks) ≡ 10 * num_tasks)
unfolding test_perf_dropoff
dropoff_sleeps dropoff n = gradual_submit_lem (dropoff_body dropoff) n

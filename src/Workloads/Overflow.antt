-- ===== src/Workloads/Overflow.antt =====
-- Which of the tests of ThreadPoolBenchmark that submit bodies make an `int` overflow.
use mathlib.Core.List.{append-nil}
use thread_pool_backtesting.Base.{
  ℕ, zero, suc, ◌+◌, ◌*◌, ◌<◌, ◌≤◌, ◌≡◌, ◌↔◌, inl, inr, refl, ap, Bool, true, false, Option,
  Option-cases, none, some, List, [], ◌∷◌, ◌++◌, arith, replicate,
}
use thread_pool_backtesting.Workloads.{
  Body, noop, add_loop, Value, no_value, int_value, in_int, multiply_loops, sqrt_log_loop,
  scale_loop, short_or_heavy, run_body, run_bodies, Event, Sweep, sweep_noop, sweep_short,
  sweep_medium, sweep_heavy, sweep_mixed, mixed_tasks, sweep_tasks, test_grp, test_seq,
  test_oversub, make_oversubscription_test, thread_count, Dropoff, dropoff_noop,
  dropoff_short_compute, dropoff_heavy_compute, dropoff_mixed, dropoff_body, test_perf_dropoff,
  test_perf_dropoff_jitter, submitted,
}
use thread_pool_backtesting.Harness.Doubles.{Double}
use thread_pool_backtesting.Workloads.Bodies.{triangle, add_loop_defined, multiply_loops-none}
use thread_pool_backtesting.Workloads.Submission.{sweeps_submit_alike, dropoff_sleeps}

-- The bodies with a loop over an int of at most 10000 additions, or with none.
abbrev IsLight : Body → Type 0
IsLight noop = Unit {0}
IsLight (add_loop rounds) = rounds ≤ 10000
IsLight multiply_loops = ⊥
IsLight sqrt_log_loop = Unit {0}
IsLight scale_loop = Unit {0}
IsLight short_or_heavy = Unit {0}

abbrev AllLight : List Body → Type 0
AllLight [] = Unit {0}
AllLight (body ∷ bodies) = IsLight body × AllLight bodies

abbrev Runs : {D : Type 0} → Option (List (Value D)) → Type 0
Runs {D} o = (xs : List (Value D)) × (o ≡ some xs)

module _ {D : Type 0} (d : Double D) where
  light-some :
      (short : Bool) (body : Body) → IsLight body → (x : Value D) × (run_body d short body ≡ some x)
  light-some short noop h = (no_value, refl)
  light-some short (add_loop rounds) h =
      (int_value (triangle rounds), ap (in_int d) (add_loop_defined rounds h))
  light-some short multiply_loops h = absurd h
  light-some short sqrt_log_loop h = (_, refl)
  light-some short scale_loop h = (_, refl)
  light-some true short_or_heavy h =
      (int_value (triangle 100), ap (in_int d) (add_loop_defined 100 (omega arith)))
  light-some false short_or_heavy h = (_, refl)

  AllLight-Runs :
      (draws : ℕ → Bool) (i : ℕ) (bodies : List Body)
      → AllLight bodies
      → Runs (run_bodies d draws i bodies)
  unfolding run_bodies
  AllLight-Runs draws i [] h = ([], refl)
  AllLight-Runs draws i (body ∷ bodies) h =
      let (x, e) = light-some (draws i) body h.0 in
      let (xs, f) = AllLight-Runs draws (i + 1) bodies h.1 in (x ∷ xs, rw (e, f) refl)

  -- A body that overflows is one too many for the whole call.
  heavy-none :
      (draws : ℕ → Bool) (i : ℕ) (before after : List Body)
      → run_bodies d draws i (before ++ multiply_loops ∷ after) ≡ none
  unfolding run_bodies
  heavy-none draws i [] after = rw multiply_loops-none refl
  heavy-none draws i (body ∷ before) after = elim (Option-cases (run_body d (draws i) body)) [
    | inl stuck ↦ rw stuck refl
    | inr (x, e) ↦ rw (e, heavy-none draws (i + 1) before after) refl
  ]

replicate-AllLight : (n : ℕ) (body : Body) → IsLight body → AllLight (replicate n body)
replicate-AllLight zero body h = tt
replicate-AllLight (suc n) body h = (h, replicate-AllLight n body h)

-- The tests that only submit bodies.
pub data Submitting : Type 0 where
  grouped : Sweep → Submitting
  sequential : Sweep → Submitting
  oversubscribed : (multiplier : ℕ) → Submitting
  dropping_off : Dropoff → Submitting
  dropping_off_jitter : (delay : ℕ → ℕ) → Submitting

abbrev pub events_of : Submitting → (num_tasks : ℕ) → List Event
events_of (grouped sweep) num_tasks = test_grp sweep num_tasks
events_of (sequential sweep) num_tasks = test_seq sweep num_tasks
events_of (oversubscribed multiplier) num_tasks = test_oversub multiplier num_tasks
events_of (dropping_off dropoff) num_tasks = test_perf_dropoff dropoff num_tasks
events_of (dropping_off_jitter delay) num_tasks = test_perf_dropoff_jitter delay 0 num_tasks

abbrev SweepOverflows : Sweep → ℕ → Type 0
SweepOverflows sweep_noop num_tasks = ⊥
SweepOverflows sweep_short num_tasks = ⊥
SweepOverflows sweep_medium num_tasks = ⊥
SweepOverflows sweep_heavy num_tasks = 0 < num_tasks
SweepOverflows sweep_mixed num_tasks = 1 < num_tasks

abbrev pub Overflows : Submitting → ℕ → Type 0
Overflows (grouped sweep) num_tasks = SweepOverflows sweep num_tasks
Overflows (sequential sweep) num_tasks = SweepOverflows sweep num_tasks
Overflows (oversubscribed multiplier) num_tasks = ⊥
Overflows (dropping_off dropoff) num_tasks = ⊥
Overflows (dropping_off_jitter delay) num_tasks = ⊥

-- What decides whether a run of bodies fails.
abbrev Decided : {D : Type 0} → Option (List (Value D)) → Type 0 → Type 0
Decided o P = (o ≡ none) ↔ P

never : {D P : Type 0} (o : Option (List (Value D))) → ¬ P → Runs o → Decided o P
never o not_so (xs, e) = (λ h. cc, λ b. absurd (not_so b))

always : {D P : Type 0} (o : Option (List (Value D))) → P → o ≡ none → Decided o P
always o so stuck = (λ h. so, λ b. stuck)

dropoff-IsLight : (dropoff : Dropoff) → IsLight (dropoff_body dropoff)
dropoff-IsLight dropoff_noop = tt
dropoff-IsLight dropoff_short_compute = omega arith
dropoff-IsLight dropoff_heavy_compute = tt
dropoff-IsLight dropoff_mixed = tt

jitter-AllLight :
    (delay : ℕ → ℕ) (i n : ℕ) → AllLight (submitted (test_perf_dropoff_jitter delay i n))
unfolding test_perf_dropoff_jitter
jitter-AllLight delay i zero = tt
jitter-AllLight delay i (suc n) = (omega arith, jitter-AllLight delay (i + 1) n)

module _ {D : Type 0} (d : Double D) where
  sweep-Decided :
      (draws : ℕ → Bool) (sweep : Sweep) (n : ℕ)
      → Decided (run_bodies d draws 0 (sweep_tasks sweep n)) (SweepOverflows sweep n)
  unfolding sweep_tasks mixed_tasks
  sweep-Decided draws sweep_noop n =
      never _ (λ b. b) (AllLight-Runs d draws 0 (replicate n noop) (replicate-AllLight n noop tt))
  sweep-Decided draws sweep_short n =
      never _ (λ b. b)
        (AllLight-Runs d draws 0 (replicate n (add_loop 100))
          (replicate-AllLight n (add_loop 100) (omega arith)))
  sweep-Decided draws sweep_medium n =
      never _ (λ b. b)
        (AllLight-Runs d draws 0 (replicate n sqrt_log_loop)
          (replicate-AllLight n sqrt_log_loop tt))
  sweep-Decided draws sweep_heavy zero =
      never _ (λ b. absurd (omega arith)) (AllLight-Runs d draws 0 [] tt)
  sweep-Decided draws sweep_heavy (suc n) =
      always _ (omega arith) (heavy-none d draws 0 [] (replicate n multiply_loops))
  sweep-Decided draws sweep_mixed zero =
      never _ (λ b. absurd (omega arith)) (AllLight-Runs d draws 0 [] tt)
  sweep-Decided draws sweep_mixed (suc zero) =
      never _ (λ b. absurd (omega arith))
        (AllLight-Runs d draws 0 (add_loop 100 ∷ []) (omega arith, tt))
  sweep-Decided draws sweep_mixed (suc (suc n)) =
      always _ (omega arith) (heavy-none d draws 0 (add_loop 100 ∷ []) (mixed_tasks 2 n))

  -- Of the tests that only submit bodies, whatever the draws of the random generators, those with
  -- an int that overflows in some task are exactly the heavy tests of the two sweeps with at least
  -- one task, and their mixed tests with at least two.
  pub undefined_exactly :
      (draws : ℕ → Bool) (test : Submitting) (num_tasks : ℕ)
      → (run_bodies d draws 0 (submitted (events_of test num_tasks)) ≡ none)
        ↔ Overflows test num_tasks
  unfolding test_grp test_oversub make_oversubscription_test
  undefined_exactly draws (grouped sweep) n =
      rw (append-nil (sweep_tasks sweep n)) (sweep-Decided draws sweep n)
  undefined_exactly draws (sequential sweep) n =
      rw ((sweeps_submit_alike sweep n).0, append-nil (sweep_tasks sweep n))
        (sweep-Decided draws sweep n)
  undefined_exactly draws (oversubscribed multiplier) n =
      rw (append-nil (replicate (thread_count * multiplier) (add_loop 10000))) (
        never _ (λ b. b)
          (AllLight-Runs d draws 0 (replicate (thread_count * multiplier) (add_loop 10000))
            (replicate-AllLight (thread_count * multiplier) (add_loop 10000) (omega arith))))
  undefined_exactly draws (dropping_off dropoff) n = rw ((dropoff_sleeps dropoff n).0) (
      never _ (λ b. b)
        (AllLight-Runs d draws 0 (replicate n (dropoff_body dropoff))
          (replicate-AllLight n (dropoff_body dropoff) (dropoff-IsLight dropoff))))
  undefined_exactly draws (dropping_off_jitter delay) n =
      never _ (λ b. b)
        (AllLight-Runs d draws 0 (submitted (test_perf_dropoff_jitter delay 0 n))
          (jitter-AllLight delay 0 n))

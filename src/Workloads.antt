-- ===== src/Workloads.antt =====
-- The task bodies of the test headers of ThreadPoolBenchmark (GroupedTaskSizeSweepTests.h,
-- SequentialTaskSizeSweepTests.h, SaturationOversubscription.h, PerfLoadDrop.h, BackToBack.h): what a
-- task computes, and what the tests hand to a pool.
pub mod Bodies
pub mod Submission
pub mod Overflow
mod Tests
use thread_pool_backtesting.Base.{
  ℕ, zero, suc, ◌+◌, ◌*◌, ◌%◌, ◌^◌, Bool, true, false, Option, none, some, List, [], ◌∷◌, ◌++◌, map,
  ltb, ◌==◌, if◌then◌else◌, replicate,
}
use thread_pool_backtesting.Ranges.{◌>>=◌}
use thread_pool_backtesting.Harness.Doubles.{Double}

pub data Body : Type 0 where
  -- `[]() {}`
  noop : Body
  -- `volatile int val = 0; for (int j = 0; j < rounds; ++j) val += j;`
  add_loop : (rounds : ℕ) → Body
  -- `for (int j = 0; j < 1000; ++j) for (int k = 0; k < 1000; ++k) x += j * k;` on a `volatile int`
  multiply_loops : Body
  -- `volatile double x = 0.0001; for (j < 10000) x += std::sqrt(std::log(x + 1.0));`
  sqrt_log_loop : Body
  -- `volatile double x = 1.0; for (i < 100000) x *= 1.0000001;`
  scale_loop : Body
  -- `if (dist(rng) == 0)` a short body, else the heavy one
  short_or_heavy : Body

-- `x += y` on an `int`; `none` is a signed overflow, which has no defined behaviour.
abbrev pub add_int : ℕ → ℕ → Option ℕ
add_int x y = if ltb (x + y) (2 ^ 31) then some (x + y) else none

-- `rounds` more rounds of `val += j`, from `j` on.
unfoldable pub add_rounds : (rounds j val : ℕ) → Option ℕ
add_rounds zero j val = some val
add_rounds (suc rounds) j val = do val' ← add_int val j; add_rounds rounds (j + 1) val'

-- The inner loop, `x += j * k`, and the outer loop over it. A product is below 2^20.
unfoldable pub multiply_row : (j rounds k x : ℕ) → Option ℕ
multiply_row j zero k x = some x
multiply_row j (suc rounds) k x = do x' ← add_int x (j * k); multiply_row j rounds (k + 1) x'

unfoldable pub multiply_rows : (width rounds j x : ℕ) → Option ℕ
multiply_rows width zero j x = some x
multiply_rows width (suc rounds) j x = do
  x' ← multiply_row j width 0 x
  multiply_rows width rounds (j + 1) x'

-- What a body leaves in its variable, if it has one; it is not read afterwards.
pub data Value (D : Type 0) : Type 0 where
  no_value : Value D
  int_value : ℕ → Value D
  double_value : D → Value D

module _ {D : Type 0} (d : Double D) where
  -- `rounds` rounds of `x += std::sqrt(std::log(x + 1.0))`.
  unfoldable pub add_roots : (rounds : ℕ) → D → D
  add_roots zero x = x
  add_roots (suc rounds) x = add_roots rounds (d.plus x (d.sqrt (d.log (d.plus x (d.of_nat 1)))))

  -- `rounds` rounds of `x *= 1.0000001`.
  unfoldable pub scale : (rounds : ℕ) → D → D
  scale zero x = x
  scale (suc rounds) x = scale rounds (d.times x (d.over (d.of_nat 10000001) (d.of_nat 10000000)))

  abbrev pub in_int : Option ℕ → Option (Value D)
  in_int left = do x ← left; some (int_value x)

  -- A body, run; `takes_short` is the draw of `short_or_heavy`. A literal such as 0.0001 is the quotient of
  -- two whole numbers that are exact, correctly rounded.
  abbrev pub run_body : (takes_short : Bool) → Body → Option (Value D)
  run_body takes_short noop = some no_value
  run_body takes_short (add_loop rounds) = in_int (add_rounds rounds 0 0)
  run_body takes_short multiply_loops = in_int (multiply_rows 1000 1000 0 0)
  run_body takes_short sqrt_log_loop =
      some (double_value (add_roots 10000 (d.over (d.of_nat 1) (d.of_nat 10000))))
  run_body takes_short scale_loop = some (double_value (scale 100000 (d.of_nat 1)))
  run_body true short_or_heavy = in_int (add_rounds 100 0 0)
  run_body false short_or_heavy = some (double_value (scale 100000 (d.of_nat 1)))

  -- The bodies that a pool is handed, each run; `draws i` is the draw of the `i`-th.
  unfoldable pub run_bodies : (draws : ℕ → Bool) → (i : ℕ) → List Body → Option (List (Value D))
  run_bodies draws i [] = some []
  run_bodies draws i (body ∷ bodies) = do
    x ← run_body (draws i) body
    rest ← run_bodies draws (i + 1) bodies
    some (x ∷ rest)

-- What a test does: it hands tasks to the pool, and it sleeps, for so many microseconds.
pub data Event : Type 0 where
  submits : List Body → Event
  sleeps : ℕ → Event

-- The five tests of the two size sweeps.
pub data Sweep : Type 0 where
  sweep_noop sweep_short sweep_medium sweep_heavy sweep_mixed : Sweep

-- `i % 2 == 0` is short and the others are heavy.
unfoldable pub mixed_tasks : (i count : ℕ) → List Body
mixed_tasks i zero = []
mixed_tasks i (suc count) =
    let rest = mixed_tasks (i + 1) count in
    (if i % 2 == 0 then add_loop 100 else multiply_loops) ∷ rest

unfoldable pub sweep_tasks : Sweep → (num_tasks : ℕ) → List Body
unfolding mixed_tasks
sweep_tasks sweep_noop num_tasks = replicate num_tasks noop
sweep_tasks sweep_short num_tasks = replicate num_tasks (add_loop 100)
sweep_tasks sweep_medium num_tasks = replicate num_tasks sqrt_log_loop
sweep_tasks sweep_heavy num_tasks = replicate num_tasks multiply_loops
sweep_tasks sweep_mixed num_tasks = mixed_tasks 0 num_tasks

-- `Test_grp_…`: one call of the pool.
unfoldable pub test_grp : Sweep → (num_tasks : ℕ) → List Event
test_grp sweep num_tasks = submits (sweep_tasks sweep num_tasks) ∷ []

-- `Test_seq_…`: a call for each task, with a vector that holds it alone.
unfoldable pub test_seq : Sweep → (num_tasks : ℕ) → List Event
test_seq sweep num_tasks = map (λ task. submits (task ∷ [])) (sweep_tasks sweep num_tasks)

-- `threadCount` of main.cpp
abbrev pub thread_count : ℕ
thread_count = 24

unfoldable pub make_oversubscription_test : (multiplier thread_count : ℕ) → List Event
make_oversubscription_test multiplier thread_count =
    submits (replicate (thread_count * multiplier) (add_loop 10000)) ∷ []

-- `Test_oversub_10x` and its like; `num_tasks` is not used.
unfoldable pub test_oversub : (multiplier num_tasks : ℕ) → List Event
test_oversub multiplier num_tasks = make_oversubscription_test multiplier thread_count

-- `dropoffDelayMs`, which `GradualSubmit` sleeps for in microseconds.
abbrev pub dropoff_delay_ms : ℕ
dropoff_delay_ms = 10

unfoldable pub gradual_submit : (num_tasks : ℕ) → Body → List Event
gradual_submit zero body = []
gradual_submit (suc n) body = submits (body ∷ []) ∷ sleeps dropoff_delay_ms ∷ gradual_submit n body

pub data Dropoff : Type 0 where
  dropoff_noop dropoff_short_compute dropoff_heavy_compute dropoff_mixed : Dropoff

abbrev pub dropoff_body : Dropoff → Body
dropoff_body dropoff_noop = noop
dropoff_body dropoff_short_compute = add_loop 100
dropoff_body dropoff_heavy_compute = scale_loop
dropoff_body dropoff_mixed = short_or_heavy

unfoldable pub test_perf_dropoff : Dropoff → (num_tasks : ℕ) → List Event
test_perf_dropoff dropoff num_tasks = gradual_submit num_tasks (dropoff_body dropoff)

-- `delay i` is the `i`-th draw of `delayDist(rng)`.
unfoldable pub test_perf_dropoff_jitter : (delay : ℕ → ℕ) → (i num_tasks : ℕ) → List Event
test_perf_dropoff_jitter delay i zero = []
test_perf_dropoff_jitter delay i (suc n) =
    submits (add_loop 500 ∷ []) ∷ sleeps (delay i) ∷ test_perf_dropoff_jitter delay (i + 1) n

-- The bodies that the pool is handed, and the time slept.
abbrev pub submitted : List Event → List Body
submitted [] = []
submitted (submits tasks ∷ events) = tasks ++ submitted events
submitted (sleeps t ∷ events) = submitted events

abbrev pub slept : List Event → ℕ
slept [] = 0
slept (submits tasks ∷ events) = slept events
slept (sleeps t ∷ events) = t + slept events

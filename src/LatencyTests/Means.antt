-- ===== src/LatencyTests/Means.antt =====
-- What the tests of ThreadPoolBenchmark/LatencyTests.h return.
use thread_pool_backtesting.Base.{
  ℕ, zero, suc, ◌+◌, ◌<◌, ◌≡◌, refl, ap, ◌∙◌, false, none, some, List, [], ◌∷◌, map, arith, length,
  get_elem?, weigh, Option-cases, inl, inr, ltb, ◌==◌, if◌then◌else◌, size_mod,
}
use thread_pool_backtesting.Queue.{returns}
use thread_pool_backtesting.Ranges.Orders.{IsOrder, order-length, is_task, one_task}
use thread_pool_backtesting.Workloads.Bodies.{multiply_loops-none}
use thread_pool_backtesting.Contention.{run_tasks}
use thread_pool_backtesting.Harness.Doubles.{Double, add_all}
use thread_pool_backtesting.Harness.Latency.{no_stats, record_all, get_avg}
use thread_pool_backtesting.Harness.Latency.Stats.{count-record_all, sum-record_all}
use thread_pool_backtesting.LatencyTests.{
  LatencyTest, latency_mixed_spike, Timing, Timings, enqueue_all, elapsed, latency_task,
  mean_of_timings, test_latency,
}
use thread_pool_backtesting.LatencyTests.Runs.{
  IsSteady, get_elem?-map, length-map, lt_of_get_elem?, length-enqueue_all, get_enqueue_all,
  run-Ran,
}

module _ {D : Type 0} (d : Double D) (clock : ℕ → ℕ) where
  mean-timings :
      (n : ℕ) (s : Timings D)
      → n < size_mod
      → s.completed ≡ n
      → length s.timings ≡ n
      → let latencies = map (λ (t : Timing D). t.latency_ns) s.timings in
        mean_of_timings d clock n s
        ≡ returns
            (if n == 0 then d.of_nat 0 else d.over (add_all d (d.of_nat 0) latencies) (d.of_nat n))
  unfolding get_avg
  mean-timings n s small c len =
      let xs = map (λ (t : Timing D). t.latency_ns) s.timings in
      let ended : ltb s.completed n ≡ false = ground arith in
      let size = length-map (λ (t : Timing D). t.latency_ns) s.timings in
      let count : (record_all d (no_stats d) xs).count ≡ n =
        omega (arith, count-record_all d (no_stats d) xs (omega arith)) in
      let sum = sum-record_all d (no_stats d) xs in rw (ended, count, sum) refl

  -- With a test whose tasks compute no overflow, fewer than 2^64 tasks, and a pool that runs each
  -- once, in whatever order, the wait ends and the test returns a mean, of as many latencies as
  -- there are tasks, added up in the order of the vector: the latency of the task that is run as
  -- the `j`-th is the time from its making to its own look at the clock, the `j`-th after all are
  -- made. Of no task the mean is 0.
  pub latency_is_mean :
      (order : ℕ → List ℕ) (test : LatencyTest) (num_tasks : ℕ)
      → IsOrder order
      → IsSteady test
      → num_tasks < size_mod
      → (latencies : List D) × (test_latency d clock order test num_tasks
          ≡ some (
              returns (
                if num_tasks == 0
                then d.of_nat 0
                else d.over (add_all d (d.of_nat 0) latencies) (d.of_nat num_tasks))))
        × (length latencies ≡ num_tasks)
        × ((j i : ℕ)
            → get_elem? (order num_tasks) j ≡ some i
            → get_elem? latencies i ≡ some (elapsed d clock (clock (num_tasks + j)) (clock i)))
  unfolding test_latency
  latency_is_mean order test n law steady small =
      let made : Timings D = record {
        timings = enqueue_all d clock 0 n;
        completed = 0;
        ticks = n;
      } in
      let size = order-length order n law in
      let len = length-enqueue_all d clock 0 n in
      let (s, e, ran) =
        run-Ran d clock test n (order n) made steady (law.below n) len (omega (arith, size)) in
      (
        map (λ (t : Timing D). t.latency_ns) s.timings,
        rw e (
            ap some
              (mean-timings n s small (omega (arith, ran.all_completed)) (ran.same_length ∙ len))),
        length-map (λ (t : Timing D). t.latency_ns) s.timings ∙ ran.same_length ∙ len,
        λ j i at.
            let zero_first : 0 + i ≡ i = omega arith in
            let lt = lt_of_get_elem? n (order n) j i (law.below n) at in
            get_elem?-map (λ (t : Timing D). t.latency_ns) s.timings i _
              (ran.own j i _ at (one_task order n i law lt) (get_enqueue_all d clock 0 n i lt))
            ∙ ap (λ m. some (elapsed d clock (clock (n + j)) (clock m))) zero_first,
      )

  first-none : (s : Timings D) → latency_task d clock latency_mixed_spike 0 s ≡ none
  unfolding latency_task
  first-none s = elim (Option-cases (get_elem? s.timings 0)) [
    | inl out ↦ rw out refl
    | inr (t, e) ↦ rw (e, multiply_loops-none) refl
  ]

  spike-none :
      (order : List ℕ) (s : Timings D)
      → 0 < weigh (is_task 0) order
      → run_tasks (latency_task d clock latency_mixed_spike) order s ≡ none
  unfolding run_tasks
  spike-none [] s h = absurd (omega arith)
  spike-none (zero ∷ order) s h = rw (first-none s) refl
  spike-none (suc k ∷ order) s h =
      elim (Option-cases (latency_task d clock latency_mixed_spike (suc k) s)) [
        | inl stuck ↦ rw stuck refl
        | inr (s', e) ↦ rw e (spike-none order s' (ground arith))
      ]

  -- A pool that runs the first task of Test_latency_mixed_spike, which is one of the nested loops over
  -- 1000 by 1000 products, makes an int overflow: with at least one task the test has no defined
  -- result.
  mixed_spike_overflows :
      (order : ℕ → List ℕ) (num_tasks : ℕ)
      → 0 < weigh (is_task 0) (order num_tasks)
      → test_latency d clock order latency_mixed_spike num_tasks ≡ none
  unfolding test_latency
  mixed_spike_overflows order n first =
      rw
        (spike-none (order n)
          (record { timings = enqueue_all d clock 0 n; completed = 0; ticks = n }) first)
        refl

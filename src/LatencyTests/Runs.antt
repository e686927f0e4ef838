-- ===== src/LatencyTests/Runs.antt =====
-- What a pool that runs the tasks of ThreadPoolBenchmark/LatencyTests.h leaves in the timings.
use thread_pool_backtesting.Base.{
  ℕ, zero, suc, ◌+◌, ◌%◌, ◌<◌, ◌≡◌, ◌≢◌, refl, sym, ap, ◌∙◌, some, List, [], ◌∷◌, map, arith,
  length, get_elem?, set, length-set, weigh, size_mod,
}
use thread_pool_backtesting.Ranges.{get_elem?-some}
use thread_pool_backtesting.Ranges.Chunks.{AllBelow}
use thread_pool_backtesting.Ranges.Orders.{is_task}
use thread_pool_backtesting.Workloads.Bodies.{triangle, add_loop_defined}
use thread_pool_backtesting.Contention.{run_tasks}
use thread_pool_backtesting.Harness.Doubles.{Double}
use thread_pool_backtesting.LatencyTests.{
  LatencyTest, latency_noop, latency_short_compute, latency_mixed_spike, computed, Timing, Timings,
  enqueue_all, elapsed, latency_task,
}

-- The tests whose tasks all compute something.
abbrev pub IsSteady : LatencyTest → Type 0
IsSteady latency_noop = Unit {0}
IsSteady latency_short_compute = Unit {0}
IsSteady latency_mixed_spike = ⊥

steady-computed :
    (test : LatencyTest) (i : ℕ) → IsSteady test → (x : ℕ) × (computed test i ≡ some x)
steady-computed latency_noop i steady = (0, refl)
steady-computed latency_short_compute i steady = (triangle 100, add_loop_defined 100 (omega arith))
steady-computed latency_mixed_spike i steady = absurd steady

module _ {A : Type 0} where
  get_elem?-set_self :
      (xs : List A) (i : ℕ) (x : A) → i < length xs → get_elem? (set xs i x) i ≡ some x
  get_elem?-set_self [] i x h = absurd (omega arith)
  get_elem?-set_self (y ∷ xs) zero x h = refl
  get_elem?-set_self (y ∷ xs) (suc i) x h = get_elem?-set_self xs i x (omega arith)

  get_elem?-set_other :
      (xs : List A) (i j : ℕ) (x : A) → i ≢ j → get_elem? (set xs i x) j ≡ get_elem? xs j
  get_elem?-set_other [] i j x h = refl
  get_elem?-set_other (y ∷ xs) zero zero x h = absurd (h refl)
  get_elem?-set_other (y ∷ xs) zero (suc j) x h = refl
  get_elem?-set_other (y ∷ xs) (suc i) zero x h = refl
  get_elem?-set_other (y ∷ xs) (suc i) (suc j) x h =
      get_elem?-set_other xs i j x (λ e. h (ap suc e))

  pub get_elem?-map :
      {B : Type 0} (f : A → B) (xs : List A) (i : ℕ) (x : A)
      → get_elem? xs i ≡ some x
      → get_elem? (map f xs) i ≡ some (f x)
  get_elem?-map f [] i x h = cc
  get_elem?-map f (y ∷ xs) zero x h = cc
  get_elem?-map f (y ∷ xs) (suc i) x h = get_elem?-map f xs i x h

  pub length-map : {B : Type 0} (f : A → B) (xs : List A) → length (map f xs) ≡ length xs
  length-map f [] = refl
  length-map f (x ∷ xs) = ap suc (length-map f xs)

pub lt_of_get_elem? :
    (n : ℕ) (order : List ℕ) (j i : ℕ) → AllBelow n order → get_elem? order j ≡ some i → i < n
lt_of_get_elem? n [] j i b h = cc
lt_of_get_elem? n (k ∷ order) zero i b h = ground (arith, b.0)
lt_of_get_elem? n (k ∷ order) (suc j) i b h = lt_of_get_elem? n order j i b.1 h

module _ {D : Type 0} (d : Double D) (clock : ℕ → ℕ) where
  pub length-enqueue_all : (i n : ℕ) → length (enqueue_all d clock i n) ≡ n
  unfolding enqueue_all
  length-enqueue_all i zero = refl
  length-enqueue_all i (suc n) = ap suc (length-enqueue_all (i + 1) n)

  pub get_enqueue_all :
      (i n j : ℕ)
      → j < n
      → get_elem? (enqueue_all d clock i n) j
        ≡ some (record { enqueue = clock (i + j); latency_ns = d.of_nat 0 })
  unfolding enqueue_all
  get_enqueue_all i zero j h = absurd (omega arith)
  get_enqueue_all i (suc n) zero h = let e : i + 0 ≡ i = omega arith in rw e refl
  get_enqueue_all i (suc n) (suc j) h =
      let e : i + suc j ≡ i + 1 + j = omega arith in
      rw e (get_enqueue_all (i + 1) n j (omega arith))

  -- The time at which task `i` was made and what is stored as its latency.
  abbrev Stamped : Timings D → ℕ → ℕ → Type 0
  Stamped s i made = (t : Timing D) × (get_elem? s.timings i ≡ some t) × (t.enqueue ≡ made)

  latency_task-some :
      (test : LatencyTest) (i : ℕ) (s : Timings D)
      → IsSteady test
      → i < length s.timings
      → (t : Timing D) × (get_elem? s.timings i ≡ some t)
        × (latency_task d clock test i s
            ≡ some (record {
              timings =
                  set s.timings i
                    (record t { latency_ns = elapsed d clock (clock s.ticks) t.enqueue });
              completed = (s.completed + 1) % size_mod;
              ticks = s.ticks + 1;
            }))
  unfolding latency_task
  latency_task-some test i s steady lt =
      let (t, e) = get_elem?-some s.timings i lt in
      let (x, f) = steady-computed test i steady in (t, e, rw (e, f) refl)

  weigh-get_elem? :
      (order : List ℕ) (j i : ℕ) → get_elem? order j ≡ some i → 0 < weigh (is_task i) order
  weigh-get_elem? [] j i h = cc
  weigh-get_elem? (k ∷ order) zero i h = ground arith
  weigh-get_elem? (k ∷ order) (suc j) i h = omega (arith, weigh-get_elem? order j i h)

  -- `t` with the latency of a task that looks at the clock as the `k`-th.
  abbrev pub begun_at : ℕ → Timing D → Timing D
  begun_at k t = record t { latency_ns = elapsed d clock (clock k) t.enqueue }

  pub record Ran (order : List ℕ) (s s' : Timings D) : Type 0 where
    pub same_length : length s'.timings ≡ length s.timings
    pub all_completed : s'.completed ≡ s.completed + length order
    pub others :
        (i : ℕ) → weigh (is_task i) order ≡ 0 → get_elem? s'.timings i ≡ get_elem? s.timings i
    pub own :
        (j i : ℕ) (t : Timing D)
        → get_elem? order j ≡ some i
        → weigh (is_task i) order ≡ 1
        → get_elem? s.timings i ≡ some t
        → get_elem? s'.timings i ≡ some (begun_at (s.ticks + j) t)

  abbrev after_task : ℕ → Timing D → Timings D → Timings D
  after_task k t s = record {
    timings = set s.timings k (begun_at s.ticks t);
    completed = (s.completed + 1) % size_mod;
    ticks = s.ticks + 1;
  }

  own-after_task :
      (k : ℕ) (order : List ℕ) (s s' : Timings D) (t : Timing D)
      → get_elem? s.timings k ≡ some t
      → k < length s.timings
      → Ran order (after_task k t s) s'
      → (j i : ℕ) (u : Timing D) → get_elem? (k ∷ order) j ≡ some i
      → weigh (is_task i) (k ∷ order) ≡ 1
      → get_elem? s.timings i ≡ some u
      → get_elem? s'.timings i ≡ some (begun_at (s.ticks + j) u)
  own-after_task k order s s' t e lt ran zero i u at once f =
      let same : k ≡ i = cc in
      let now : s.ticks + 0 ≡ s.ticks = omega arith in
      let g : t ≡ u = cc in
      rw now (
        ran.others i (ground arith)
        ∙ ap (λ m. get_elem? (set s.timings k (begun_at s.ticks t)) m) (sym same)
        ∙ get_elem?-set_self s.timings k (begun_at s.ticks t) lt
        ∙ ap (λ v. some (begun_at s.ticks v)) g)
  own-after_task k order s s' t e lt ran (suc j) i u at once f =
      let later : s.ticks + suc j ≡ s.ticks + 1 + j = omega arith in
      let some_left = weigh-get_elem? order j i at in
      let apart : k ≢ i = λ same. ground arith in
      rw later (
        ran.own j i u at (ground arith)
          (get_elem?-set_other s.timings k i (begun_at s.ticks t) apart ∙ f))

  cons-Ran :
      (k : ℕ) (order : List ℕ) (s s' : Timings D) (t : Timing D)
      → get_elem? s.timings k ≡ some t
      → k < length s.timings
      → s.completed + length (k ∷ order) < size_mod
      → Ran order (after_task k t s) s'
      → Ran (k ∷ order) s s'
  cons-Ran k order s s' t e lt small ran = record {
    same_length = ran.same_length ∙ length-set s.timings k (begun_at s.ticks t);
    all_completed = omega (arith, ran.all_completed);
    others = λ i none_ran.
        ran.others i (ground arith)
        ∙ get_elem?-set_other s.timings k i (begun_at s.ticks t) (λ same. ground arith);
    own = own-after_task k order s s' t e lt ran;
  }

  pub run-Ran :
      (test : LatencyTest) (n : ℕ) (order : List ℕ) (s : Timings D)
      → IsSteady test
      → AllBelow n order
      → length s.timings ≡ n
      → s.completed + length order < size_mod
      → (s' : Timings D) × (run_tasks (latency_task d clock test) order s ≡ some s')
        × Ran order s s'
  unfolding run_tasks
  run-Ran test n [] s steady b len small = (
    s,
    refl,
    record {
      same_length = refl;
      all_completed = omega arith;
      others = λ i h. refl;
      own = λ j i t h. cc;
    },
  )
  run-Ran test n (k ∷ order) s steady b len small =
      let lt : k < length s.timings = omega (arith, b.0) in
      let (t, e, run) = latency_task-some test k s steady lt in
      let (s', f, ran) =
        run-Ran test n order (after_task k t s) steady b.1
          (length-set s.timings k (begun_at s.ticks t) ∙ len) (omega arith) in
      (s', rw (run, f) refl, cons-Ran k order s s' t e lt small ran)

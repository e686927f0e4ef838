-- ===== src/Pool/Schedule.antt =====
-- Running the pool along a given order of steps (ThreadPoolBenchmark/ThreadPool.h), for examples.
use thread_pool_backtesting.Base.{
  ℕ, ◌<◌, ◌≡◌, refl, false, Option, none, some, List, [], ◌∷◌, dec_lt,
}
use thread_pool_backtesting.Pool.{
  ThreadPool, Outcome, Request, CallerPc, outside, work, begin, continue,
}
use thread_pool_backtesting.Pool.System.{Step, works, begins, continues, Reach, start, next}

-- Whose turn it is: a worker, whose task ends so if it is at one; a caller that makes a call; or a
-- caller that goes on with its call.
pub data Turn (T : Type 0) : Type 0 where
  worker : ℕ → Outcome → Turn T
  call : ℕ → Request T → Turn T
  go_on : ℕ → Turn T

pub record Reached (T : Type 0) (n capacity m : ℕ) : Type 0 where
  pub pool : ThreadPool T
  pub reach : Reach n capacity m pool

is_outside : {T : Type 0} (c : CallerPc T) → Option (c ≡ outside)
is_outside outside = some refl
is_outside _ = none

module _ {T : Type 0} {n capacity m : ℕ} where
  follow :
      (r : Reached T n capacity m) (o : Option (ThreadPool T))
      → ((q : ThreadPool T) → o ≡ some q → Step m r.pool q)
      → Reached T n capacity m
  follow r none step = r
  follow r (some q) step = record { pool = q; reach = next r.reach (step q refl) }

  make_call :
      (r : Reached T n capacity m) (j : ℕ) (q : Request T)
      → j < m
      → Option (r.pool.callers j ≡ outside)
      → Reached T n capacity m
  make_call r j q lt none = r
  make_call r j q lt (some out) = record {
    pool = begin r.pool j q;
    reach = next r.reach (begins j q lt out refl);
  }

  -- A turn that cannot be taken changes nothing.
  turn : Reached T n capacity m → Turn T → Reached T n capacity m
  unfolding dec_lt follow make_call is_outside
  turn r (worker i o) = elim (dec_lt i r.pool.current_threads) [
    | yes lt ↦ follow r (work r.pool i o) (λ q h. works i o lt h)
    | no _ ↦ r
  ]
  turn r (call j q) = elim (dec_lt j m) [
    | yes lt ↦ make_call r j q lt (is_outside (r.pool.callers j))
    | no _ ↦ r
  ]
  turn r (go_on j) = elim (dec_lt j m) [
    | yes lt ↦ follow r (continue r.pool j) (λ q h. continues j lt h)
    | no _ ↦ r
  ]

  unfoldable pub run : Reached T n capacity m → List (Turn T) → Reached T n capacity m
  unfolding turn
  run r [] = r
  run r (t ∷ ts) = run (turn r t) ts

-- A fresh pool of `n` workers with room for `capacity` tasks, used by `m` threads.
unfoldable pub fresh : (T : Type 0) (n capacity m : ℕ) → Reached T n capacity m
fresh T n capacity m = record { pool = _; reach = start false false "pool" }

-- ===== src/Harness/Latency/Stats.antt =====
-- LatencyStats of ThreadPoolBenchmark/Helpers.h: what the statistics say of the values recorded.
use thread_pool_backtesting.Base.{
  ◌+◌, ◌%◌, ◌≡◌, refl, false, List, [], ◌∷◌, arith, length, size_mod, ◌<◌,
}
use thread_pool_backtesting.Harness.Doubles.{
  Double, IsOrdered, min_double, max_double, add_all, none_between, min_double-least,
  max_double-greatest,
}
use thread_pool_backtesting.Harness.Latency.{LatencyStats, no_stats, record_latency, record_all}

module _ {D : Type 0} (d : Double D) where
  -- `x` is above none of the values, and below none.
  abbrev pub AboveNone : D → List D → Type 0
  AboveNone x [] = Unit {0}
  AboveNone x (y ∷ ys) = (d.less y x ≡ false) × AboveNone x ys

  abbrev pub BelowNone : D → List D → Type 0
  BelowNone x [] = Unit {0}
  BelowNone x (y ∷ ys) = (d.less x y ≡ false) × BelowNone x ys

  pub count-record_all :
      (s : LatencyStats D) (xs : List D)
      → s.count < size_mod
      → (record_all d s xs).count ≡ (s.count + length xs) % size_mod
  unfolding record_all record_latency
  count-record_all s [] h = omega arith
  count-record_all s (x ∷ xs) h =
      omega (arith, count-record_all (record_latency d s x) xs (omega arith))

  pub sum-record_all :
      (s : LatencyStats D) (xs : List D) → (record_all d s xs).sum_ns ≡ add_all d s.sum_ns xs
  unfolding record_all record_latency
  sum-record_all s [] = refl
  sum-record_all s (x ∷ xs) = sum-record_all (record_latency d s x) xs

  module _ (law : IsOrdered d) where
    min-falls :
        (s : LatencyStats D) (xs : List D) → d.less s.min_ns (record_all d s xs).min_ns ≡ false
    unfolding record_all record_latency
    min-falls s [] = law.irreflexive s.min_ns
    min-falls s (x ∷ xs) =
        none_between d law s.min_ns (min_double d s.min_ns x) _
          (min_double-least d law s.min_ns x).0 (min-falls (record_latency d s x) xs)

    max-rises :
        (s : LatencyStats D) (xs : List D) → d.less (record_all d s xs).max_ns s.max_ns ≡ false
    unfolding record_all record_latency
    max-rises s [] = law.irreflexive s.max_ns
    max-rises s (x ∷ xs) =
        none_between d law _ (max_double d s.max_ns x) s.max_ns
          (max-rises (record_latency d s x) xs) (max_double-greatest d law s.max_ns x).0

    bounds :
        (s : LatencyStats D) (xs : List D)
        → AboveNone (record_all d s xs).min_ns xs × BelowNone (record_all d s xs).max_ns xs
    unfolding record_all record_latency
    bounds s [] = (tt, tt)
    bounds s (x ∷ xs) =
        let (low, high) = bounds (record_latency d s x) xs in
        (
          (
            none_between d law x (min_double d s.min_ns x) _ (min_double-least d law s.min_ns x).1
                (min-falls (record_latency d s x) xs),
            low,
          ),
          (
            none_between d law _ (max_double d s.max_ns x) x (max-rises (record_latency d s x) xs)
                (max_double-greatest d law s.max_ns x).1,
            high,
          ),
        )

    -- After the latencies of a test (none a NaN, fewer than 2^64) are recorded: the minimum is
    -- above none of them and the maximum below none, the sum is theirs from 0 on and from left to
    -- right, and the count is their number.
    stats_of_all :
        (xs : List D)
        → length xs < size_mod
        → let s = record_all d (no_stats d) xs in
          AboveNone s.min_ns xs
          × BelowNone s.max_ns xs
          × (s.sum_ns ≡ add_all d (d.of_nat 0) xs)
          × (s.count ≡ length xs)
    stats_of_all xs small =
        let (low, high) = bounds (no_stats d) xs in
        (
          low,
          high,
          sum-record_all (no_stats d) xs,
          omega (arith, count-record_all (no_stats d) xs (omega arith)),
        )

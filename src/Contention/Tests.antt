-- ===== src/Contention/Tests.antt =====
-- Concrete runs of ThreadPoolBenchmark/HighContention.h, and its theorems at them.
use thread_pool_backtesting.Base.{ℕ, ◌≤◌, ◌*◌, ◌<◌, ◌≡◌, refl, true, some, arith, ◌⊎◌, ℕ_discrete}
use thread_pool_backtesting.Contention.{
  backs_off, critical, finished, Contended, Reach, start, next, move,
}
use thread_pool_backtesting.Contention.Flag.{IsModest, mutual_exclusion}
use thread_pool_backtesting.Contention.Ends.{Fails, Made, fresh, goes, fails, contention_ends}

-- Of three tasks the second is inside, and the first has found the flag taken.
abbrev entered : (s : Contended) × Reach backs_off 3 s × (s.tasks 1 ≡ critical)
unfolding move ℕ_discrete
entered = (_, next 0 (next 1 start (omega arith) refl) (omega arith) refl, refl)

mutual_exclusion_example :
    (entered.0.flag ≡ true)
    × (entered.0.tasks 0 ≡ critical → ◌≡◌ {A = ℕ} 1 0)
    × ((k : ℕ) → IsModest (entered.0.tasks k))
mutual_exclusion_example = mutual_exclusion 1 0 entered.1 (omega arith) (omega arith) entered.2

-- The second goes in, and then the first finds the flag taken.
one_made : (s : Contended) × Made backs_off 3 1 s
unfolding move ℕ_discrete
one_made =
    (_, fails 0 (goes 1 fresh (omega arith) (λ f. cc) refl) (omega arith) (refl, 1, refl) refl)

contention_ends_example :
    (1 ≤ 2 * 3)
    × (((i : ℕ) → i < 3 → one_made.0.tasks i ≡ finished)
        ⊎ ((i : ℕ) × (s' : Contended) × (i < 3)
            × (¬ Fails one_made.0 i)
            × (move backs_off one_made.0 i ≡ some s')))
contention_ends_example = contention_ends one_made.1

-- ===== src/Ranges/Orders.antt =====
-- An order in which a pool of ThreadPoolBenchmark runs `n` tasks, each once: the tasks by index.
use thread_pool_backtesting.Base.{
  Bool-cases, inl, inr, ltb, ==_iff, ℕ, zero, suc, ◌+◌, ◌≤◌, ◌<◌, ◌≡◌, refl, ◌==◌, if◌then◌else◌,
  sym, ap, ◌∙◌, List, [], ◌∷◌, arith, length, weigh, weigh-one,
}
use thread_pool_backtesting.Ranges.{sum_from}
use thread_pool_backtesting.Ranges.Chunks.{AllBelow}

pub record IsOrder (order : ℕ → List ℕ) : Type 0 where
  pub below : (n : ℕ) → AllBelow n (order n)
  pub covers : (n : ℕ) (w : ℕ → ℕ) → weigh w (order n) ≡ sum_from w 0 n

pub sum_from_ones : (begin n : ℕ) → sum_from (λ _. 1) begin n ≡ n
sum_from_ones begin zero = refl
sum_from_ones begin (suc n) = omega (arith, sum_from_ones (begin + 1) n)

pub order-length : (order : ℕ → List ℕ) (n : ℕ) → IsOrder order → length (order n) ≡ n
order-length order n law = sym (weigh-one (order n)) ∙ law.covers n (λ _. 1) ∙ sum_from_ones 0 n

-- 1 for the task `i`.
abbrev pub is_task : ℕ → ℕ → ℕ
is_task i j = if j == i then 1 else 0

sum_from-is_task_above : (i begin n : ℕ) → i < begin → sum_from (is_task i) begin n ≡ 0
sum_from-is_task_above i begin zero h = refl
sum_from-is_task_above i begin (suc n) h = ground (arith, sum_from-is_task_above i (begin + 1) n)

sum_from-is_task : (i begin n : ℕ) → begin ≤ i → i < begin + n → sum_from (is_task i) begin n ≡ 1
sum_from-is_task i begin zero l h = absurd (omega arith)
sum_from-is_task i begin (suc n) l h =
    ground (arith, sum_from-is_task i (begin + 1) n, sum_from-is_task_above i (begin + 1) n)

-- Each task is in the order once.
pub one_task :
    (order : ℕ → List ℕ) (n i : ℕ) → IsOrder order → i < n → weigh (is_task i) (order n) ≡ 1
one_task order n i law lt =
    law.covers n (is_task i) ∙ sum_from-is_task i 0 n (omega arith) (omega arith)

pub every_task :
    (order : ℕ → List ℕ) (n i : ℕ) → IsOrder order → i < n → 0 < weigh (is_task i) (order n)
every_task order n i law lt = omega (arith, one_task order n i law lt)

-- The tasks in the order of the vector.
unfoldable pub ascending : ℕ → ℕ → List ℕ
ascending begin zero = []
ascending begin (suc n) = begin ∷ ascending (begin + 1) n

ascending-below : (begin n m : ℕ) → begin + n ≤ m → AllBelow m (ascending begin n)
unfolding ascending
ascending-below begin zero m h = tt
ascending-below begin (suc n) m h = (omega arith, ascending-below (begin + 1) n m (omega arith))

pub weigh-ascending : (w : ℕ → ℕ) (begin n : ℕ) → weigh w (ascending begin n) ≡ sum_from w begin n
unfolding ascending
weigh-ascending w begin zero = refl
weigh-ascending w begin (suc n) = omega (arith, weigh-ascending w (begin + 1) n)

pub ascending-IsOrder : IsOrder (ascending 0)
ascending-IsOrder = record {
  below = λ n. ascending-below 0 n n (omega arith);
  covers = λ n w. weigh-ascending w 0 n;
}

pub length-ascending : (begin n : ℕ) → length (ascending begin n) ≡ n
unfolding ascending
length-ascending begin zero = refl
length-ascending begin (suc n) = ap suc (length-ascending (begin + 1) n)

-- An order for each number of tasks: the given one for `n` tasks.
abbrev pub ordered : (n : ℕ) → List ℕ → ℕ → List ℕ
ordered n xs k = if k == n then xs else ascending 0 k

-- 1 for an index out of range.
abbrev is_above : ℕ → ℕ → ℕ
is_above n i = if ltb i n then 0 else 1

sum_from-is_above : (n begin count : ℕ) → begin + count ≤ n → sum_from (is_above n) begin count ≡ 0
sum_from-is_above n begin zero le = refl
sum_from-is_above n begin (suc count) le = ground (arith, sum_from-is_above n (begin + 1) count)

weigh-AllBelow : (n : ℕ) (xs : List ℕ) → weigh (is_above n) xs ≡ 0 → AllBelow n xs
weigh-AllBelow n [] e = tt
weigh-AllBelow n (x ∷ xs) e = (ground arith, weigh-AllBelow n xs (ground arith))

ordered-covers :
    (n : ℕ) (xs : List ℕ)
    → ((w : ℕ → ℕ) → weigh w xs ≡ sum_from w 0 n)
    → (k : ℕ) (w : ℕ → ℕ) → weigh w (ordered n xs k) ≡ sum_from w 0 k
ordered-covers n xs h k w = elim (Bool-cases (k == n)) [
  | inl same ↦ rw same (h w ∙ ap (sum_from w 0) (sym ((==_iff k n).0 same)))
  | inr other ↦ rw other (weigh-ascending w 0 k)
]

pub ordered-IsOrder :
    (n : ℕ) (xs : List ℕ) → ((w : ℕ → ℕ) → weigh w xs ≡ sum_from w 0 n) → IsOrder (ordered n xs)
ordered-IsOrder n xs h =
    let covers = ordered-covers n xs h in
    record {
      below = λ k.
          weigh-AllBelow k (ordered n xs k)
            (covers k (is_above k) ∙ sum_from-is_above k 0 k (omega arith));
      covers = covers;
    }

pub ordered-at : (n : ℕ) (xs : List ℕ) → ordered n xs n ≡ xs
ordered-at n xs = rw ((==_iff n n).1 refl) refl

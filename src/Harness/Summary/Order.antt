-- ===== src/Harness/Summary/Order.antt =====
-- The order of the pools in the tables of ThreadPoolBenchmark/Helpers.h.
use thread_pool_backtesting.Base.{
  ℕ, zero, suc, ◌+◌, ◌≤◌, ◌<◌, ◌≡◌, refl, ◌∙◌, false, Bool-cases, inl, inr, List, [], ◌∷◌, arith,
  length, weigh,
}
use thread_pool_backtesting.Ranges.{sum_from}
use thread_pool_backtesting.Ranges.Chunks.{AllBelow}
use thread_pool_backtesting.Harness.Doubles.{Double, IsOrdered, asymmetric, none_between}
use thread_pool_backtesting.Harness.Summary.{insert_by, sort_by, iota}

module _ {D : Type 0} (d : Double D) (score : ℕ → D) where
  -- No score that comes is above `x`.
  abbrev pub NoneAbove : D → List ℕ → Type 0
  NoneAbove x [] = Unit {0}
  NoneAbove x (i ∷ order) = (d.less x (score i) ≡ false) × NoneAbove x order

  -- None is above one that comes before it.
  abbrev pub Descending : List ℕ → Type 0
  Descending [] = Unit {0}
  Descending (i ∷ order) = NoneAbove (score i) order × Descending order

  weigh-insert_by :
      (w : ℕ → ℕ) (i : ℕ) (order : List ℕ)
      → weigh w (insert_by d score i order) ≡ w i + weigh w order
  unfolding insert_by
  weigh-insert_by w i [] = refl
  weigh-insert_by w i (j ∷ order) = elim (Bool-cases (d.less (score i) (score j))) [
    | inl above ↦ rw above (omega (arith, weigh-insert_by w i order))
    | inr below ↦ rw below refl
  ]

  weigh-sort_by : (w : ℕ → ℕ) (order : List ℕ) → weigh w (sort_by d score order) ≡ weigh w order
  unfolding sort_by
  weigh-sort_by w [] = refl
  weigh-sort_by w (i ∷ order) =
      omega (arith, weigh-insert_by w i (sort_by d score order), weigh-sort_by w order)

  insert_by-below :
      (n i : ℕ) (order : List ℕ) → i < n → AllBelow n order → AllBelow n (insert_by d score i order)
  unfolding insert_by
  insert_by-below n i [] lt h = (lt, tt)
  insert_by-below n i (j ∷ order) lt h = elim (Bool-cases (d.less (score i) (score j))) [
    | inl above ↦ rw above (h.0, insert_by-below n i order lt h.1)
    | inr below ↦ rw below (lt, h)
  ]

  pub sort_by-below :
      (n : ℕ) (order : List ℕ) → AllBelow n order → AllBelow n (sort_by d score order)
  unfolding sort_by
  sort_by-below n [] h = tt
  sort_by-below n (i ∷ order) h =
      insert_by-below n i (sort_by d score order) h.0 (sort_by-below n order h.1)

  insert_by-length :
      (i : ℕ) (order : List ℕ) → length (insert_by d score i order) ≡ suc (length order)
  unfolding insert_by
  insert_by-length i [] = refl
  insert_by-length i (j ∷ order) = elim (Bool-cases (d.less (score i) (score j))) [
    | inl above ↦ rw above (omega (arith, insert_by-length i order))
    | inr below ↦ rw below refl
  ]

  pub sort_by-length : (order : List ℕ) → length (sort_by d score order) ≡ length order
  unfolding sort_by
  sort_by-length [] = refl
  sort_by-length (i ∷ order) =
      omega (arith, insert_by-length i (sort_by d score order), sort_by-length order)

  module _ (law : IsOrdered d) where
    NoneAbove-lower :
        (x y : D) (order : List ℕ) → d.less x y ≡ false → NoneAbove y order → NoneAbove x order
    NoneAbove-lower x y [] e h = tt
    NoneAbove-lower x y (i ∷ order) e h =
        (none_between d law x y (score i) e h.0, NoneAbove-lower x y order e h.1)

    NoneAbove-insert_by :
        (x : D) (i : ℕ) (order : List ℕ)
        → d.less x (score i) ≡ false
        → NoneAbove x order
        → NoneAbove x (insert_by d score i order)
    unfolding insert_by
    NoneAbove-insert_by x i [] e h = (e, tt)
    NoneAbove-insert_by x i (j ∷ order) e h = elim (Bool-cases (d.less (score i) (score j))) [
      | inl above ↦ rw above (h.0, NoneAbove-insert_by x i order e h.1)
      | inr below ↦ rw below (e, h)
    ]

    insert_by-Descending :
        (i : ℕ) (order : List ℕ) → Descending order → Descending (insert_by d score i order)
    unfolding insert_by
    insert_by-Descending i [] h = (tt, tt)
    insert_by-Descending i (j ∷ order) h = elim (Bool-cases (d.less (score i) (score j))) [
      | inl above ↦ rw above (
        NoneAbove-insert_by (score j) i order (asymmetric d law (score i) (score j) above) h.0,
        insert_by-Descending i order h.1,
      )
      | inr below ↦ rw below ((below, NoneAbove-lower (score i) (score j) order below h.0), h)
    ]

    sort_by-Descending : (order : List ℕ) → Descending (sort_by d score order)
    unfolding sort_by
    sort_by-Descending [] = tt
    sort_by-Descending (i ∷ order) =
        insert_by-Descending i (sort_by d score order) (sort_by-Descending order)

pub iota-below : (begin n m : ℕ) → begin + n ≤ m → AllBelow m (iota begin n)
iota-below begin zero m h = tt
iota-below begin (suc n) m h = (omega arith, iota-below (begin + 1) n m (omega arith))

pub iota-length : (begin n : ℕ) → length (iota begin n) ≡ n
iota-length begin zero = refl
iota-length begin (suc n) = omega (arith, iota-length (begin + 1) n)

weigh-iota : (w : ℕ → ℕ) (begin n : ℕ) → weigh w (iota begin n) ≡ sum_from w begin n
weigh-iota w begin zero = refl
weigh-iota w begin (suc n) = omega (arith, weigh-iota w (begin + 1) n)

-- For scores of which none is a NaN (the order of doubles is then strict, and what is not less is
-- at least): the order of the table holds each of the pools exactly once (the weight is
-- arbitrary), and no pool has a higher score than one above it.
pub order_by_score :
    {D : Type 0} (d : Double D) (score : ℕ → D) (n : ℕ) (w : ℕ → ℕ)
    → IsOrdered d
    → (weigh w (sort_by d score (iota 0 n)) ≡ sum_from w 0 n)
      × Descending d score (sort_by d score (iota 0 n))
order_by_score d score n w law = (
  weigh-sort_by d score w (iota 0 n) ∙ weigh-iota w 0 n,
  sort_by-Descending d score law (iota 0 n),
)

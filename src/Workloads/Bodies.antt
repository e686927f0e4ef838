-- ===== src/Workloads/Bodies.antt =====
-- The integer loops of the test headers of ThreadPoolBenchmark.
use native.Mathlib.Nat.{mul-add, add-mul}
use thread_pool_backtesting.Base.{
  ℕ, zero, suc, ◌+◌, ◌*◌, ◌^◌, ◌≤◌, ◌<◌, ◌≡◌, refl, ap, ◌∙◌, ◌-◌, none, some, arith, ltb,
  Bool-cases, Option-cases, inl, inr,
}
use thread_pool_backtesting.Workloads.{add_int, add_rounds, multiply_row, multiply_rows}

-- `0 + 1 + … + (n - 1)`
abbrev pub triangle : ℕ → ℕ
triangle zero = 0
triangle (suc n) = triangle n + n

-- `j + (j + 1) + …`, `rounds` terms
abbrev pub ascend : ℕ → ℕ → ℕ
ascend j zero = 0
ascend j (suc rounds) = j + ascend (j + 1) rounds

ascend-last : (j n : ℕ) → ascend j (suc n) ≡ ascend j n + (j + n)
ascend-last j zero = omega arith
ascend-last j (suc n) = omega (arith, ascend-last (j + 1) n)

ascend-triangle : (n : ℕ) → ascend 0 n ≡ triangle n
ascend-triangle zero = refl
ascend-triangle (suc n) = omega (arith, ascend-last 0 n, ascend-triangle n)

triangle-le : (n k : ℕ) → triangle n ≤ triangle (n + k)
triangle-le n zero = let e : n + 0 ≡ n = omega arith in rw e (omega arith)
triangle-le n (suc k) =
    let e : n + suc k ≡ suc (n + k) = omega arith in rw e (omega (arith, triangle-le n k))

add_rounds-ascend :
    (rounds j val : ℕ)
    → val + ascend j rounds < 2 ^ 31
    → add_rounds rounds j val ≡ some (val + ascend j rounds)
unfolding add_rounds
add_rounds-ascend zero j val h = let e : val + 0 ≡ val = omega arith in rw e refl
add_rounds-ascend (suc rounds) j val h =
    let fits : add_int val j ≡ some (val + j) = ground arith in
    let rest = add_rounds-ascend rounds (j + 1) (val + j) (omega arith) in
    let e : val + (j + ascend (j + 1) rounds) ≡ val + j + ascend (j + 1) rounds = omega arith in
    rw (fits, e) rest

-- A loop of at most 10000 additions, which is all that the tests have, ends without an overflow, and
-- leaves the sum of the numbers below its bound.
pub add_loop_defined :
    (rounds : ℕ) → rounds ≤ 10000 → add_rounds rounds 0 0 ≡ some (triangle rounds)
add_loop_defined rounds h =
    let least : triangle rounds ≤ triangle (rounds + (10000 - rounds)) =
      triangle-le rounds (10000 - rounds) in
    let same : rounds + (10000 - rounds) ≡ 10000 = omega arith in
    let most = ap triangle same in
    let bound : triangle 10000 ≡ 49995000 = refl in
    let sum = ascend-triangle rounds in
    add_rounds-ascend rounds 0 0 (omega (arith, least, most, bound, sum))
    ∙ ap some (omega (arith, sum))

-- What a chain of additions that ended has added up, and that it is an `int`.
abbrev Added : ℕ → ℕ → ℕ → Type 0
Added x sum y = (y ≡ x + sum) × (x < 2 ^ 31 → y < 2 ^ 31)

add_int-Added : (x z y : ℕ) → add_int x z ≡ some y → Added x z y
add_int-Added x z y h = elim (Bool-cases (ltb (x + z) (2 ^ 31))) [
  | inl fits ↦ (ground arith, λ small. ground arith)
  | inr over ↦ absurd (ground arith)
]

multiply_row-Added :
    (j rounds k x y : ℕ) → multiply_row j rounds k x ≡ some y → Added x (j * ascend k rounds) y
unfolding multiply_row
multiply_row-Added j zero k x y h = let e : x ≡ y = cc in (omega arith, λ small. omega arith)
multiply_row-Added j (suc rounds) k x y h = elim (Option-cases (add_int x (j * k))) [
  | inl stuck ↦ let bad = rw stuck at h in cc
  | inr (x', first) ↦
      let rest = multiply_row-Added j rounds (k + 1) x' y (rw first at h) in
      let one = add_int-Added x (j * k) x' first in
      (
        omega (arith, rest.0, one.0, mul-add j k (ascend (k + 1) rounds)),
        λ small. rest.1 (one.1 small),
      )
]

multiply_rows-Added :
    (width rounds j x y : ℕ)
    → multiply_rows width rounds j x ≡ some y
    → Added x (ascend j rounds * ascend 0 width) y
unfolding multiply_rows
multiply_rows-Added width zero j x y h = let e : x ≡ y = cc in (omega arith, λ small. omega arith)
multiply_rows-Added width (suc rounds) j x y h = elim (Option-cases (multiply_row j width 0 x)) [
  | inl stuck ↦ let bad = rw stuck at h in cc
  | inr (x', first) ↦
      let rest = multiply_rows-Added width rounds (j + 1) x' y (rw first at h) in
      let one = multiply_row-Added j width 0 x x' first in
      (
        omega (arith, rest.0, one.0, add-mul j (ascend (j + 1) rounds) (ascend 0 width)),
        λ small. rest.1 (one.1 small),
      )
]

-- Nested loops of additions of j * k overflow their int before they end, if the product of the
-- sums of the numbers below the two bounds is at least 2^31 (for the 1000 by 1000 rounds of the
-- heavy bodies it is 249500250000).
multiply_loops_overflow :
    (width rounds : ℕ)
    → 2 ^ 31 ≤ triangle rounds * triangle width
    → multiply_rows width rounds 0 0 ≡ none
multiply_loops_overflow width rounds h = elim (Option-cases (multiply_rows width rounds 0 0)) [
  | inl stuck ↦ stuck
  | inr (y, done) ↦
      let sum = multiply_rows-Added width rounds 0 0 y done in
      let total : ascend 0 rounds * ascend 0 width ≡ triangle rounds * triangle width =
        rw (ascend-triangle rounds, ascend-triangle width) refl in
      absurd (omega (arith, sum.0, sum.1 (omega arith), total))
]

-- The heavy bodies have 1000 by 1000 rounds.
pub multiply_loops-none : multiply_rows 1000 1000 0 0 ≡ none
multiply_loops-none =
    let sum : triangle 1000 ≡ 499500 = refl in
    multiply_loops_overflow 1000 1000 (omega (arith, sum))

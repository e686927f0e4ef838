-- ===== src/Ranges.antt =====
-- Loops over index ranges: `for (i = begin; i < end; ++i) tasks[i]();` as oneTBB_Wrapper.h and
-- main.cpp in ThreadPoolBenchmark write it, and the cutting of a range into chunks.
pub mod Chunks
pub mod Orders
use thread_pool_backtesting.Base.{
  ℕ, zero, suc, ◌+◌, ◌-◌, ◌≤◌, ◌<◌, ◌≡◌, refl, Option, none, some, List, [], ◌∷◌, ◌++◌, arith,
  length, get_elem?, weigh, weigh-append,
}

infixl 5 ◌>>=◌
abbrev pub ◌>>=◌ {ℓ κ} : {A : Type ℓ} {B : Type κ} → Option A → (A → Option B) → Option B
none >>= f = none
some a >>= f = f a

-- `w begin + … + w (begin + count - 1)`
abbrev pub sum_from : (ℕ → ℕ) → ℕ → ℕ → ℕ
sum_from w begin zero = 0
sum_from w begin (suc count) = w begin + sum_from w (begin + 1) count

-- A range `[begin, end)`.
abbrev pub over_range : (ℕ → ℕ) → ℕ × ℕ → ℕ
over_range w (begin, end) = sum_from w begin (end - begin)

abbrev pub AllWithin : ℕ → List (ℕ × ℕ) → Type 0
AllWithin n [] = Unit {0}
AllWithin n ((begin, end) ∷ rs) = (begin ≤ end) × (end ≤ n) × AllWithin n rs

pub sum_from-split :
    (w : ℕ → ℕ) (begin m n : ℕ)
    → sum_from w begin (m + n) ≡ sum_from w begin m + sum_from w (begin + m) n
sum_from-split w begin zero n =
    let e : 0 + n ≡ n = omega arith in
    let f : begin + 0 ≡ begin = omega arith in rw (e, f) (omega arith)
sum_from-split w begin (suc m) n =
    let e : suc m + n ≡ suc (m + n) = omega arith in
    let f : begin + suc m ≡ begin + 1 + m = omega arith in
    rw (e, f) (omega (arith, sum_from-split w (begin + 1) m n))

module _ {T : Type 0} where
  -- The tasks that the loop runs, from `begin` on, `count` rounds. `none` is an index out of range.
  unfoldable pub run_range : List T → ℕ → ℕ → Option (List T)
  run_range tasks begin zero = some []
  run_range tasks begin (suc count) = do
    task ← get_elem? tasks begin
    rest ← run_range tasks (begin + 1) count
    some (task ∷ rest)

  -- The loop's body called for each range of a list.
  unfoldable pub run_ranges : List T → List (ℕ × ℕ) → Option (List T)
  run_ranges tasks [] = some []
  run_ranges tasks ((begin, end) ∷ rs) = do
    first ← run_range tasks begin (end - begin)
    rest ← run_ranges tasks rs
    some (first ++ rest)

  abbrev pub weight_of : (T → ℕ) → Option T → ℕ
  weight_of w none = 0
  weight_of w (some t) = w t

  abbrev pub weight_at : (T → ℕ) → List T → ℕ → ℕ
  weight_at w tasks i = weight_of w (get_elem? tasks i)

  -- The loop finds all that it reads, and runs each task of the range once.
  abbrev pub Runs : (T → ℕ) → Option (List T) → ℕ → Type 0
  Runs w r k = (ts : List T) × (r ≡ some ts) × (weigh w ts ≡ k)

  pub get_elem?-some : (xs : List T) (i : ℕ) → i < length xs → (x : T) × (get_elem? xs i ≡ some x)
  get_elem?-some [] i h = absurd (omega arith)
  get_elem?-some (x ∷ xs) zero h = (x, refl)
  get_elem?-some (x ∷ xs) (suc i) h = get_elem?-some xs i (omega arith)

  pub run_range-Runs :
      (w : T → ℕ) (tasks : List T) (count begin : ℕ)
      → begin + count ≤ length tasks
      → Runs w (run_range tasks begin count) (sum_from (weight_at w tasks) begin count)
  unfolding run_range
  run_range-Runs w tasks zero begin h = ([], refl, refl)
  run_range-Runs w tasks (suc count) begin h =
      let (t, e) = get_elem?-some tasks begin (omega arith) in
      let (ts, f, k) = run_range-Runs w tasks count (begin + 1) (omega arith) in
      (t ∷ ts, rw (e, f) refl, rw (e, k) refl)

  pub run_ranges-Runs :
      (w : T → ℕ) (tasks : List T) (rs : List (ℕ × ℕ))
      → AllWithin (length tasks) rs
      → Runs w (run_ranges tasks rs) (weigh (over_range (weight_at w tasks)) rs)
  unfolding run_ranges
  run_ranges-Runs w tasks [] h = ([], refl, refl)
  run_ranges-Runs w tasks ((begin, end) ∷ rs) h =
      let (ts, e, k) = run_range-Runs w tasks (end - begin) begin (omega arith) in
      let (us, f, l) = run_ranges-Runs w tasks rs h.2 in
      (ts ++ us, rw (e, f) refl, omega (arith, weigh-append w ts us))

  sum_from-shift :
      (w : T → ℕ) (x : T) (xs : List T) (count begin : ℕ)
      → sum_from (weight_at w (x ∷ xs)) (begin + 1) count ≡ sum_from (weight_at w xs) begin count
  sum_from-shift w x xs zero begin = refl
  sum_from-shift w x xs (suc count) begin =
      let e : begin + 1 ≡ suc begin = omega arith in
      let first : weight_at w (x ∷ xs) (begin + 1) ≡ weight_at w xs begin = rw e refl in
      omega (arith, first, sum_from-shift w x xs count (begin + 1))

  pub sum_from-length :
      (w : T → ℕ) (xs : List T) → sum_from (weight_at w xs) 0 (length xs) ≡ weigh w xs
  sum_from-length w [] = refl
  sum_from-length w (x ∷ xs) =
      omega (arith, sum_from-shift w x xs (length xs) 0, sum_from-length w xs)

-- ===== src/Runners/Batched/Order.antt =====
-- main_ThreadPool_Batched_16 of ThreadPoolBenchmark/main.cpp: blocks of 16 leave the order as it is.
use mathlib.Core.List.{append-nil}
use thread_pool_backtesting.Base.{
  ℕ, zero, suc, ◌+◌, ◌-◌, ◌≤◌, ◌<◌, ◌≡◌, refl, sym, ap, ◌∙◌, min, some, List, [], ◌∷◌, ◌++◌, arith,
  length, length-drop, get_elem?, take, drop, take-append-drop, take-all, ltb, ltb→lt, Bool-cases,
  dec_lt, inl, inr,
}
use thread_pool_backtesting.Ranges.{run_range, run_ranges}
use thread_pool_backtesting.Ranges.Chunks.{chunks_from, chunks}
use thread_pool_backtesting.Runners.{main_thread_pool}
use thread_pool_backtesting.Runners.Batched.{batched_16}

module _ {T : Type 0} where
  drop-nil : (n : ℕ) → drop {A = T} n [] ≡ []
  drop-nil zero = refl
  drop-nil (suc n) = refl

  drop-drop : (i j : ℕ) (xs : List T) → drop (i + j) xs ≡ drop j (drop i xs)
  drop-drop zero j xs = let e : 0 + j ≡ j = omega arith in rw e refl
  drop-drop (suc i) j [] = drop-nil (suc i + j) ∙ sym (drop-nil j)
  drop-drop (suc i) j (x ∷ xs) =
      let e : suc i + j ≡ suc (i + j) = omega arith in rw e (drop-drop i j xs)

  drop-all : (n : ℕ) (xs : List T) → length xs ≤ n → drop n xs ≡ []
  drop-all zero [] h = refl
  drop-all zero (x ∷ xs) h = absurd (omega arith)
  drop-all (suc n) [] h = refl
  drop-all (suc n) (x ∷ xs) h = drop-all n xs (omega arith)

  head_of_drop :
      (xs : List T) (i : ℕ)
      → i < length xs
      → (x : T) × (get_elem? xs i ≡ some x) × (drop i xs ≡ x ∷ drop (i + 1) xs)
  head_of_drop [] i h = absurd (omega arith)
  head_of_drop (x ∷ xs) zero h = (x, refl, refl)
  head_of_drop (x ∷ xs) (suc i) h =
      let (y, e, f) = head_of_drop xs i (omega arith) in
      let s : suc i + 1 ≡ suc (i + 1) = omega arith in (y, e, rw s f)

  run_range-take :
      (tasks : List T) (count begin : ℕ)
      → begin + count ≤ length tasks
      → run_range tasks begin count ≡ some (take count (drop begin tasks))
  unfolding run_range
  run_range-take tasks zero begin h = refl
  run_range-take tasks (suc count) begin h =
      let (t, e, f) = head_of_drop tasks begin (omega arith) in
      rw (e, f, run_range-take tasks count (begin + 1) (omega arith)) refl

  -- The first chunk and the others make up what is left.
  chunk-append :
      (tasks : List T) (i step : ℕ)
      → i < length tasks
      → take (min (i + step) (length tasks) - i) (drop i tasks) ++ drop (i + step) tasks
        ≡ drop i tasks
  chunk-append tasks i step lt = elim (dec_lt (length tasks) (i + step)) [
    | yes last ↦
        let none_left = drop-all (i + step) tasks (omega arith) in
        let all =
          take-all (min (i + step) (length tasks) - i) (drop i tasks)
            (omega (arith, length-drop i tasks)) in
        rw (none_left, all) (append-nil (drop i tasks))
    | no more ↦
        let count : min (i + step) (length tasks) - i ≡ step = omega arith in
        rw (count, drop-drop i step tasks) (take-append-drop step (drop i tasks))
  ]

  run_chunks :
      (tasks : List T) (fuel i step : ℕ)
      → 0 < step
      → length tasks ≤ i + fuel
      → run_ranges tasks (chunks_from fuel i (length tasks) step) ≡ some (drop i tasks)
  unfolding run_ranges chunks_from
  run_chunks tasks zero i step s h = rw (drop-all i tasks (omega arith)) refl
  run_chunks tasks (suc fuel) i step s h = elim (Bool-cases (ltb i (length tasks))) [
    | inr done ↦ rw (done, drop-all i tasks (ground arith)) refl
    | inl more ↦
        let lt = ltb→lt i (length tasks) more in
        let first = run_range-take tasks (min (i + step) (length tasks) - i) i (omega arith) in
        let rest = run_chunks tasks fuel (i + step) step s (omega arith) in
        rw (more, first, rest) (ap some (chunk-append tasks i step lt))
  ]

  -- Handed over in blocks of 16, the tasks are submitted one by one in the order of the vector, as
  -- main_ThreadPool submits them, and no index is out of range.
  batched_16_keeps_order : (tasks : List T) → batched_16 tasks ≡ some (main_thread_pool tasks)
  unfolding batched_16 chunks
  batched_16_keeps_order tasks =
      rw (run_chunks tasks (length tasks) 0 16 (omega arith) (omega arith)) refl

-- ===== src/Harness/Totals.antt =====
-- The totals that runAllPoolsOnSuites of ThreadPoolBenchmark/Helpers.h adds up in place, against the
-- table of all that was measured.
use mathlib.Core.List.{append_assoc}
use thread_pool_backtesting.Base.{
  ℕ, zero, suc, ◌+◌, ◌<◌, ◌≡◌, refl, sym, subst, ap, ◌∙◌, List, [], ◌∷◌, ◌++◌, map, arith, length,
  length-replicate, get_or, set, replicate,
}
use thread_pool_backtesting.Harness.Doubles.{Double, add_all}
use thread_pool_backtesting.Harness.{Runner, TestSpec, timed, run_tests, run_passes}

module _ {D W : Type 0} (d : Double D) (now : W → ℕ × W) (pool : Runner W) where
  -- What one pass over the tests measures, in the order of the calls, and the world after it.
  abbrev pub one_pass : List (TestSpec W) → W → List D × W
  one_pass [] w = ([], w)
  one_pass (test ∷ tests) w =
      let (dur_ms, w1) = timed d now pool test w in
      let (rest, w2) = one_pass tests w1 in (dur_ms ∷ rest, w2)

  -- A row for each pass.
  abbrev pub all_passes : List (TestSpec W) → ℕ → W → List (List D) × W
  all_passes tests zero w = ([], w)
  all_passes tests (suc runs) w =
      let (row, w1) = one_pass tests w in
      let (rows, w2) = all_passes tests runs w1 in (row ∷ rows, w2)

  -- What the passes measured of test `t`.
  abbrev pub column : ℕ → List (List D) → List D
  column t rows = map (λ row. get_or row t (d.of_nat 0)) rows

  abbrev add_row : List D → List D → List D
  add_row [] row = []
  add_row (x ∷ xs) [] = x ∷ xs
  add_row (x ∷ xs) (y ∷ ys) = d.plus x y ∷ add_row xs ys

  get_or-append :
      (before : List D) (x : D) (after : List D) (y : D)
      → get_or (before ++ x ∷ after) (length before) y ≡ x
  get_or-append [] x after y = refl
  get_or-append (b ∷ before) x after y = get_or-append before x after y

  set-append :
      (before : List D) (x : D) (after : List D) (y : D)
      → set (before ++ x ∷ after) (length before) y ≡ before ++ y ∷ after
  set-append [] x after y = refl
  set-append (b ∷ before) x after y = ap (◌∷◌ b) (set-append before x after y)

  length-snoc : (before : List D) (x : D) → length (before ++ x ∷ []) ≡ length before + 1
  length-snoc [] x = refl
  length-snoc (b ∷ before) x = omega (arith, length-snoc before x)

  run_tests-add_row :
      (tests : List (TestSpec W)) (before row : List D) (w : W)
      → length row ≡ length tests
      → run_tests d now pool (length before) tests (before ++ row) w
        ≡ (before ++ add_row row (one_pass tests w).0, (one_pass tests w).1)
  unfolding run_tests
  run_tests-add_row [] before [] w e = refl
  run_tests-add_row [] before (x ∷ row) w e = absurd (omega arith)
  run_tests-add_row (test ∷ tests) before [] w e = absurd (omega arith)
  run_tests-add_row (test ∷ tests) before (x ∷ row) w e =
      let (dur_ms, w1) = timed d now pool test w in
      let y = d.plus x dur_ms in
      let next = run_tests-add_row tests (before ++ y ∷ []) row w1 (omega arith) in
      rw (get_or-append before x row (d.of_nat 0), set-append before x row y)
        (rw
          (
            length-snoc before y,
            append_assoc before (y ∷ []) row,
            append_assoc before (y ∷ []) (add_row row (one_pass tests w1).0),
          )
          at next)

  length-add_row : (xs ys : List D) → length (add_row xs ys) ≡ length xs
  length-add_row [] ys = refl
  length-add_row (x ∷ xs) [] = refl
  length-add_row (x ∷ xs) (y ∷ ys) = ap suc (length-add_row xs ys)

  abbrev add_rows : List D → List (List D) → List D
  add_rows row [] = row
  add_rows row (r ∷ rows) = add_rows (add_row row r) rows

  run_passes-add_rows :
      (tests : List (TestSpec W)) (runs : ℕ) (row : List D) (w : W)
      → length row ≡ length tests
      → run_passes d now pool tests runs row w
        ≡ (add_rows row (all_passes tests runs w).0, (all_passes tests runs w).1)
  unfolding run_passes
  run_passes-add_rows tests zero row w e = refl
  run_passes-add_rows tests (suc runs) row w e =
      let (r, w1) = one_pass tests w in
      rw (run_tests-add_row tests [] row w e)
        (run_passes-add_rows tests runs (add_row row r) w1 (length-add_row row r ∙ e))

  length-one_pass : (tests : List (TestSpec W)) (w : W) → length (one_pass tests w).0 ≡ length tests
  length-one_pass [] w = refl
  length-one_pass (test ∷ tests) w = ap suc (length-one_pass tests (timed d now pool test w).1)

  abbrev AllOf : ℕ → List (List D) → Type 0
  AllOf n [] = Unit {0}
  AllOf n (row ∷ rows) = (length row ≡ n) × AllOf n rows

  all_passes-AllOf :
      (tests : List (TestSpec W)) (runs : ℕ) (w : W)
      → AllOf (length tests) (all_passes tests runs w).0
  all_passes-AllOf tests zero w = tt
  all_passes-AllOf tests (suc runs) w =
      (length-one_pass tests w, all_passes-AllOf tests runs (one_pass tests w).1)

  get_add_row :
      (xs ys : List D) (t : ℕ) (z : D)
      → t < length xs
      → length ys ≡ length xs
      → get_or (add_row xs ys) t z ≡ d.plus (get_or xs t z) (get_or ys t z)
  get_add_row [] ys t z lt e = absurd (omega arith)
  get_add_row (x ∷ xs) [] t z lt e = absurd (omega arith)
  get_add_row (x ∷ xs) (y ∷ ys) zero z lt e = refl
  get_add_row (x ∷ xs) (y ∷ ys) (suc t) z lt e = get_add_row xs ys t z (omega arith) (omega arith)

  get_add_rows :
      (row : List D) (rows : List (List D)) (t : ℕ)
      → t < length row
      → AllOf (length row) rows
      → get_or (add_rows row rows) t (d.of_nat 0)
        ≡ add_all d (get_or row t (d.of_nat 0)) (column t rows)
  get_add_rows row [] t lt h = refl
  get_add_rows row (r ∷ rows) t lt h =
      let same = length-add_row row r in
      get_add_rows (add_row row r) rows t (omega (arith, same))
        (subst (λ n. AllOf n rows) (sym same) h.1)
      ∙ ap (λ x. add_all d x (column t rows)) (get_add_row row r t (d.of_nat 0) lt h.0)

  length-add_rows : (row : List D) (rows : List (List D)) → length (add_rows row rows) ≡ length row
  length-add_rows row [] = refl
  length-add_rows row (r ∷ rows) = length-add_rows (add_row row r) rows ∙ length-add_row row r

  get_or-replicate : (n t : ℕ) (x : D) → get_or (replicate n x) t x ≡ x
  get_or-replicate zero t x = refl
  get_or-replicate (suc n) zero x = refl
  get_or-replicate (suc n) (suc t) x = get_or-replicate n t x

  -- What a number of passes over a suite add up in place is a total for each test, which is the
  -- sum, from 0 on and in the order of the passes, of what the passes measured of that test; and
  -- the passes leave the world that the calls leave, test by test and pass by pass.
  pub passes_add_up :
      (tests : List (TestSpec W)) (runs : ℕ) (w : W)
      → let result = run_passes d now pool tests runs (replicate (length tests) (d.of_nat 0)) w in
        let measured = all_passes tests runs w in
        (length result.0 ≡ length tests)
        × ((t : ℕ)
            → t < length tests
            → get_or result.0 t (d.of_nat 0) ≡ add_all d (d.of_nat 0) (column t measured.0))
        × (result.1 ≡ measured.1)
  passes_add_up tests runs w =
      let n = length tests in
      let same = length-replicate n (d.of_nat 0) in
      let rows = (all_passes tests runs w).0 in
      let e = run_passes-add_rows tests runs (replicate n (d.of_nat 0)) w same in
      (
        ap (λ r. length r.0) e ∙ length-add_rows (replicate n (d.of_nat 0)) rows ∙ same,
        λ t lt.
            ap (λ r. get_or r.0 t (d.of_nat 0)) e
            ∙ get_add_rows (replicate n (d.of_nat 0)) rows t (omega (arith, same))
                (subst (λ m. AllOf m rows) (sym same) (all_passes-AllOf tests runs w))
            ∙ ap (λ x. add_all d x (column t rows)) (get_or-replicate n t (d.of_nat 0)),
        ap (λ r. r.1) e,
      )

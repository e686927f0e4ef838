-- ===== src/Harness/Summary/Lines.antt =====
-- The lines of the tables of ThreadPoolBenchmark/Helpers.h: their cells, and columns that are wide enough.
use Prim.Native.Char.{Char}
use thread_pool_backtesting.Base.{
  ℕ, suc, ◌+◌, ◌≤◌, ◌≡◌, refl, sym, ap, ◌∙◌, max, List, [], ◌∷◌, arith, length,
}
use thread_pool_backtesting.Harness.Doubles.{Double}
use thread_pool_backtesting.Harness.{SuiteSpec, PoolResult}
use thread_pool_backtesting.Harness.Summary.{
  widen, Scored, Line, fmt_cell, suite_cells, lines_of, widest, name_w,
}
use thread_pool_backtesting.Harness.Summary.Defined.{Finds, AllFit, AllScored, Fits-Rows}
use thread_pool_backtesting.Harness.Summary.Layout.{
  Fitting, Fitting-widen, Fitting-widened, length-widen, All,
}

module _ {D W : Type 0} (d : Double D) (suites : List (SuiteSpec W)) where
  suite_cells-Finds :
      (scores averages : List D)
      → length scores ≡ length averages
      → Finds (λ cells. length cells ≡ length scores) (suite_cells d scores averages)
  unfolding suite_cells
  suite_cells-Finds [] averages e = ([], refl, refl)
  suite_cells-Finds (s ∷ scores) [] e = absurd (omega arith)
  suite_cells-Finds (s ∷ scores) (a ∷ averages) e =
      let (cells, f, k) = suite_cells-Finds scores averages (omega arith) in
      (fmt_cell d s a ∷ cells, rw f refl, ap suc k)

  -- A cell for each suite, and one for "overall".
  abbrev pub HasCells : Line → Type 0
  HasCells line = length line.cells ≡ suc (length suites)

  pub lines_of-Finds :
      (results : List (PoolResult D)) (scores : List (Scored D))
      → AllFit d suites results
      → AllScored d suites results scores
      → Finds
          (λ (lines : List Line). All HasCells lines × (length lines ≡ length results))
          (lines_of d scores results)
  unfolding lines_of
  lines_of-Finds [] scores h k = ([], refl, (tt, refl))
  lines_of-Finds (r ∷ results) [] h k = absurd k
  lines_of-Finds (r ∷ results) (s ∷ scores) h k =
      let same = (Fits-Rows d suites r.per_test_avg_ms r.suite_averages h.0).1 in
      let (cells, e, n) = suite_cells-Finds s.suite_score r.suite_averages (k.0 ∙ sym same) in
      let (lines, f, (all, m)) = lines_of-Finds results scores h.1 k.1 in
      let line : Line = record {
        name = r.pool_name;
        cells = fmt_cell d s.overall_score r.overall_average ∷ cells;
      } in
      (line ∷ lines, rw (e, f) refl, ((ap suc (n ∙ k.0), all), ap suc m))

  pub widest-Fitting :
      (lines : List Line) (widths : List ℕ) (cells : List (List Char))
      → Fitting widths cells
      → Fitting (widest d suites widths lines) cells
  unfolding widest
  widest-Fitting [] widths cells h = h
  widest-Fitting (line ∷ lines) widths cells h =
      widest-Fitting lines (widen widths line.cells) cells (Fitting-widen widths cells line.cells h)

  pub widest-All :
      (lines : List Line) (widths : List ℕ)
      → length widths ≡ suc (length suites)
      → All HasCells lines
      → All (λ line. Fitting (widest d suites widths lines) line.cells) lines
  unfolding widest
  widest-All [] widths e h = tt
  widest-All (line ∷ lines) widths e h = (
    widest-Fitting lines (widen widths line.cells) line.cells
        (Fitting-widened widths line.cells (h.0 ∙ sym e)),
    widest-All lines (widen widths line.cells) (length-widen widths line.cells ∙ e) h.1,
  )

  -- The first column is wider than the names in it.
  name_w-above : (lines : List Line) (w : ℕ) → w + 2 ≤ name_w d suites w lines
  unfolding name_w
  name_w-above [] w = omega arith
  name_w-above (line ∷ lines) w = omega (arith, name_w-above lines (max w (length line.name)))

  pub name_w-All :
      (lines : List Line) (w : ℕ)
      → All (λ line. length line.name + 2 ≤ name_w d suites w lines) lines
  unfolding name_w
  name_w-All [] w = tt
  name_w-All (line ∷ lines) w = (
    omega (arith, name_w-above lines (max w (length line.name))),
    name_w-All lines (max w (length line.name)),
  )

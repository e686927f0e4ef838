-- ===== src/Harness/Summary.antt =====
-- ThreadPoolBenchmark/Helpers.h: printSummaryTableTaskNormalized and printSummaryTableSuiteNormalized,
-- up to the text that they print, line by line. `none` is an index out of range.
-- Names and cells are taken to be shorter than 2^31, so that their sizes as `int` are exact.
pub mod Order
pub mod Lines
pub mod Table
pub mod Layout
pub mod Defined
use Prim.Native.Char.{Char}
use Prim.Native.String.{String}
use thread_pool_backtesting.Base.{
  ℕ, zero, suc, ◌+◌, ◌-◌, max, Bool, true, false, Option, none, some, List, [], ◌∷◌, ◌++◌, map,
  length, get_or, replicate, if◌then◌else◌,
}
use thread_pool_backtesting.Ranges.{◌>>=◌}
use thread_pool_backtesting.Ranges.Chunks.{gather}
use thread_pool_backtesting.Harness.Doubles.{Double, min_double, add_all}
use thread_pool_backtesting.Harness.{SuiteSpec, PoolResult}

-- A text literal.
unfoldable pub chars : String → List Char
chars String.[] = []
chars (String.◌∷◌ c s) = c ∷ chars s

abbrev pub blanks : ℕ → List Char
blanks n = replicate n " "

-- `std::setw(w) << std::left` and `std::right`: a longer text is not cut.
abbrev pub pad_right : ℕ → List Char → List Char
pad_right w text = text ++ blanks (w - length text)

abbrev pub pad_left : ℕ → List Char → List Char
pad_left w text = blanks (w - length text) ++ text

-- Cells under their columns; a cell without a column stands as it is.
pub lay_out : (ℕ → List Char → List Char) → List ℕ → List (List Char) → List Char
lay_out pad widths [] = []
lay_out pad [] (cell ∷ cells) = cell ++ lay_out pad [] cells
lay_out pad (w ∷ widths) (cell ∷ cells) = pad w cell ++ lay_out pad widths cells

-- `0, 1, … , n - 1` from `begin` on: `std::iota`.
abbrev pub iota : (begin n : ℕ) → List ℕ
iota begin zero = []
iota begin (suc n) = begin ∷ iota (begin + 1) n

-- A column is as wide as the widest text in it so far.
abbrev pub widen : List ℕ → List (List Char) → List ℕ
widen [] cells = []
widen (w ∷ widths) [] = w ∷ widths
widen (w ∷ widths) (cell ∷ cells) = max w (length cell) ∷ widen widths cells

-- The scores of a pool, each line's cells, and a line to be.
pub record Scored (D : Type 0) : Type 0 where
  pub suite_score : List D
  pub overall_score : D

pub record Line : Type 0 where
  pub name : List Char
  pub cells : List (List Char)

module _ {D : Type 0} (d : Double D) where
  unfoldable pub fmt_time : D → List Char
  unfolding chars
  fmt_time ms =
      if d.at_least ms (d.of_nat 1)
      then d.fixed 1 ms ++ chars " ms"
      else d.rounded (d.times ms (d.of_nat 1000)) ++ chars " us"

  unfoldable pub fmt_cell : D → D → List Char
  unfolding fmt_time chars
  fmt_cell score ms = d.fixed 2 score ++ chars "(" ++ fmt_time ms ++ chars ")"

  -- `best[t] = std::min(best[t], times[t])` for each entry of `best`.
  unfoldable pub min_row : List D → List D → Option (List D)
  min_row [] times = some []
  min_row (best ∷ bests) [] = none
  min_row (best ∷ bests) (time ∷ times) = do
    rest ← min_row bests times
    some (min_double d best time ∷ rest)

  unfoldable pub min_rows : List (List D) → List (List D) → Option (List (List D))
  min_rows [] rows = some []
  min_rows (best ∷ bests) [] = none
  min_rows (best ∷ bests) (row ∷ rows) = do
    first ← min_row best row
    rest ← min_rows bests rows
    some (first ∷ rest)

  -- Step 1 of the task-normalised table, over the pools' results.
  unfoldable pub best_per_test : List (List D) → List (PoolResult D) → Option (List (List D))
  best_per_test best [] = some best
  best_per_test best (r ∷ results) = do
    better ← min_rows best r.per_test_avg_ms
    best_per_test better results

  -- Step 1 of the suite-normalised table.
  unfoldable pub best_suite_ms : List D → List (PoolResult D) → Option (List D)
  best_suite_ms best [] = some best
  best_suite_ms best (r ∷ results) = do
    better ← min_row best r.suite_averages
    best_suite_ms better results

  -- `best[t] / times[t]` for each entry of `best`.
  unfoldable pub ratios : List D → List D → Option (List D)
  ratios [] times = some []
  ratios (best ∷ bests) [] = none
  ratios (best ∷ bests) (time ∷ times) = do
    rest ← ratios bests times
    some (d.over best time ∷ rest)

  -- Step 2: the mean of the ratios of each suite.
  unfoldable pub suite_scores : List (List D) → List (List D) → Option (List D)
  suite_scores [] rows = some []
  suite_scores (best ∷ bests) [] = none
  suite_scores (best ∷ bests) (row ∷ rows) = do
    shares ← ratios best row
    rest ← suite_scores bests rows
    some (d.over (add_all d (d.of_nat 0) shares) (d.of_nat (length best)) ∷ rest)

  abbrev pub scored : List D → Scored D
  scored scores = record {
    suite_score = scores;
    overall_score = d.over (add_all d (d.of_nat 0) scores) (d.of_nat (length scores));
  }

  unfoldable pub score_tasks : List (List D) → List (PoolResult D) → Option (List (Scored D))
  score_tasks best [] = some []
  score_tasks best (r ∷ results) = do
    scores ← suite_scores best r.per_test_avg_ms
    rest ← score_tasks best results
    some (scored scores ∷ rest)

  unfoldable pub score_suites : List D → List (PoolResult D) → Option (List (Scored D))
  score_suites best [] = some []
  score_suites best (r ∷ results) = do
    scores ← ratios best r.suite_averages
    rest ← score_suites best results
    some (scored scores ∷ rest)

  -- Step 3: `std::sort` of the indices by descending score. The program leaves the order of pools with
  -- equal scores open; here they keep theirs.
  unfoldable pub insert_by : (ℕ → D) → ℕ → List ℕ → List ℕ
  insert_by score i [] = i ∷ []
  insert_by score i (j ∷ order) =
      let later = insert_by score i order in
      if d.less (score i) (score j) then j ∷ later else i ∷ j ∷ order

  unfoldable pub sort_by : (ℕ → D) → List ℕ → List ℕ
  sort_by score [] = []
  sort_by score (i ∷ order) = insert_by score i (sort_by score order)

  abbrev pub score_at : List (Scored D) → ℕ → D
  score_at [] i = d.of_nat 0
  score_at (s ∷ scores) zero = s.overall_score
  score_at (s ∷ scores) (suc i) = score_at scores i

  -- Step 4: the cells of a pool, the one for "overall" first.
  unfoldable pub suite_cells : List D → List D → Option (List (List Char))
  suite_cells [] averages = some []
  suite_cells (score ∷ scores) [] = none
  suite_cells (score ∷ scores) (average ∷ averages) = do
    rest ← suite_cells scores averages
    some (fmt_cell score average ∷ rest)

  unfoldable pub lines_of : List (Scored D) → List (PoolResult D) → Option (List Line)
  lines_of scores [] = some []
  lines_of [] (r ∷ results) = none
  lines_of (s ∷ scores) (r ∷ results) = do
    cells ← suite_cells s.suite_score r.suite_averages
    rest ← lines_of scores results
    some (
        record { name = r.pool_name; cells = fmt_cell s.overall_score r.overall_average ∷ cells }
        ∷ rest)

  module _ {W : Type 0} (suites : List (SuiteSpec W)) where
    abbrev pub headings : List (List Char)
    unfolding chars
    headings = chars "overall" ∷ map (λ s. s.suite_name) suites

    unfoldable pub widest : List ℕ → List Line → List ℕ
    widest widths [] = widths
    widest widths (line ∷ lines) = widest (widen widths line.cells) lines

    unfoldable pub col_w : List Line → List ℕ
    unfolding widest chars
    col_w lines = map suc (widest (map (λ h. length h) headings) lines)

    unfoldable pub name_w : ℕ → List Line → ℕ
    name_w w [] = w + 2
    name_w w (line ∷ lines) = name_w (max w (length line.name)) lines

    -- Steps 5 and 6.
    unfoldable pub header_row : List Line → List Char
    unfolding col_w name_w chars
    header_row lines = pad_left (name_w 0 lines) [] ++ lay_out pad_right (col_w lines) headings

    unfoldable pub data_row : List Line → Line → List Char
    unfolding col_w name_w chars
    data_row lines line =
        pad_right (name_w 0 lines) (line.name ++ chars ":")
        ++ lay_out pad_left (col_w lines) line.cells

    unfoldable pub table :
        String → List (PoolResult D) → List (Scored D) → Option (List (List Char))
    unfolding header_row data_row chars
    table title results scores = do
      lines ← lines_of scores results
      ordered ← gather lines (sort_by (score_at scores) (iota 0 (length results)))
      some (
          [] ∷ chars title ∷ header_row lines ∷ map (data_row lines) ordered
          ++ chars "===============================================" ∷ [])

    unfoldable pub print_summary_table_task_normalized :
        List (PoolResult D) → Option (List (List Char))
    print_summary_table_task_normalized results = do
      best ← best_per_test (map (λ s. replicate (length s.tests) d.max_value) suites) results
      scores ← score_tasks best results
      table "=============== Task Normalised ===============" results scores

    unfoldable pub print_summary_table_suite_normalized :
        List (PoolResult D) → Option (List (List Char))
    print_summary_table_suite_normalized results = do
      best ← best_suite_ms (replicate (length suites) d.max_value) results
      scores ← score_suites best results
      table "=============== Suite Normalised ===============" results scores

-- ===== src/Harness/Summary/Table.antt =====
-- The tables of ThreadPoolBenchmark/Helpers.h as a whole.
use Prim.Native.Char.{Char}
use Prim.Native.String.{String}
use thread_pool_backtesting.Base.{
  ℕ, suc, ◌+◌, ◌≤◌, ◌≡◌, refl, sym, subst, ap, ◌∙◌, Option, List, [], ◌∷◌, ◌++◌, map, arith, length,
  length-append,
}
use thread_pool_backtesting.Ranges.Chunks.{AllBelow}
use thread_pool_backtesting.Harness.Doubles.{Double}
use thread_pool_backtesting.Harness.{SuiteSpec, PoolSpec, PoolResult, run_all_pools_on_suites}
use thread_pool_backtesting.Harness.Results.{results_fit}
use thread_pool_backtesting.Harness.Summary.{
  chars, pad_right, pad_left, lay_out, iota, Scored, Line, headings, widest, col_w, name_w,
  header_row, data_row, table, score_at, sort_by, print_summary_table_task_normalized,
  print_summary_table_suite_normalized,
}
use thread_pool_backtesting.Harness.Summary.Order.{
  sort_by-below, sort_by-length, iota-below, iota-length,
}
use thread_pool_backtesting.Harness.Summary.Defined.{
  Finds, AllFit, AllScored, AreResults-AllFit, task_scores-Finds, average_scores-Finds,
}
use thread_pool_backtesting.Harness.Summary.Layout.{
  Fitting, pad_right-IsPad, pad_left-IsPad, total_width, length-lay_out, Fitting-self,
  Fitting-wider, All, All-map, gather-All, All-both, length-map, All-mapped,
}
use thread_pool_backtesting.Harness.Summary.Lines.{
  HasCells, lines_of-Finds, widest-Fitting, widest-All, name_w-All,
}

module _ {D W : Type 0} (d : Double D) (suites : List (SuiteSpec W)) where
  abbrev line_width : List Line → ℕ
  line_width lines = name_w d suites 0 lines + total_width (col_w d suites lines)

  headings-Fitting : (lines : List Line) → Fitting (col_w d suites lines) (headings d suites)
  unfolding col_w
  headings-Fitting lines =
      Fitting-wider (widest d suites (map (λ h. length h) (headings d suites)) lines)
        (headings d suites)
        (widest-Fitting d suites lines (map (λ h. length h) (headings d suites)) (headings d suites)
          (Fitting-self (headings d suites)))

  length-header_row : (lines : List Line) → length (header_row d suites lines) ≡ line_width lines
  unfolding header_row
  length-header_row lines = omega (
    arith,
    length-append (pad_left (name_w d suites 0 lines) [])
        (lay_out pad_right (col_w d suites lines) (headings d suites)),
    pad_left-IsPad (name_w d suites 0 lines) [] (omega arith),
    length-lay_out pad_right (col_w d suites lines) (headings d suites) pad_right-IsPad
        (headings-Fitting lines),
  )

  length-data_row :
      (lines : List Line) (line : Line)
      → length line.name + 2 ≤ name_w d suites 0 lines
      → Fitting (col_w d suites lines) line.cells
      → length (data_row d suites lines line) ≡ line_width lines
  unfolding data_row chars
  length-data_row lines line name fits = omega (
    arith,
    length-append (pad_right (name_w d suites 0 lines) (line.name ++ chars ":"))
        (lay_out pad_left (col_w d suites lines) line.cells),
    pad_right-IsPad (name_w d suites 0 lines) (line.name ++ chars ":")
        (omega (arith, length-append line.name (chars ":"))),
    length-lay_out pad_left (col_w d suites lines) line.cells pad_left-IsPad fits,
  )

  data_rows-aligned :
      (lines : List Line)
      → All (HasCells d suites) lines
      → All (λ line. length (data_row d suites lines line) ≡ line_width lines) lines
  unfolding col_w
  data_rows-aligned lines h =
      let cells =
        widest-All d suites lines (map (λ h. length h) (headings d suites))
          (length-map (λ h. length h) (headings d suites)
            ∙ ap suc (length-map (λ (s : SuiteSpec W). s.suite_name) suites))
          h in
      All-both (λ line. length line.name + 2 ≤ name_w d suites 0 lines)
        (λ line.
          Fitting (widest d suites (map (λ h. length h) (headings d suites)) lines) line.cells)
        (λ line. length (data_row d suites lines line) ≡ line_width lines) lines
        (name_w-All d suites lines 0) cells
        (λ line name fits. length-data_row lines line name (
          Fitting-wider (widest d suites (map (λ h. length h) (headings d suites)) lines) line.cells
            fits))

  -- A table: a blank line, the title, a header and a line for each of `n` pools, all of one width, and a
  -- closing line.
  abbrev pub IsAligned : ℕ → List (List Char) → Type 0
  IsAligned n text =
      (title : List Char) × (header : List Char) × (rows : List (List Char)) × (closing : List Char)
      × (text ≡ [] ∷ title ∷ header ∷ rows ++ closing ∷ [])
      × (length rows ≡ n)
      × All (λ row. length row ≡ length header) rows

  table-IsAligned :
      (title : String) (results : List (PoolResult D)) (scores : List (Scored D))
      → AllFit d suites results
      → AllScored d suites results scores
      → Finds (IsAligned (length results)) (table d suites title results scores)
  unfolding table
  table-IsAligned title results scores h k =
      let (lines, e, (cells, same)) = lines_of-Finds d suites results scores h k in
      let order = sort_by d (score_at d scores) (iota 0 (length results)) in
      let below =
        sort_by-below d (score_at d scores) (length results) (iota 0 (length results))
          (iota-below 0 (length results) (length results) (omega arith)) in
      let (ordered, f, aligned, m) =
        gather-All (λ line. length (data_row d suites lines line) ≡ line_width lines) lines order
          (subst (λ n. AllBelow n order) (sym same) below) (data_rows-aligned lines cells) in
      let count =
        sort_by-length d (score_at d scores) (iota 0 (length results))
        ∙ iota-length 0 (length results) in
      (
        [] ∷ chars title ∷ header_row d suites lines ∷ map (data_row d suites lines) ordered
            ++ chars "===============================================" ∷ [],
        rw (e, f) refl,
        (
          chars title,
          header_row d suites lines,
          map (data_row d suites lines) ordered,
          chars "===============================================",
          refl,
          length-map (data_row d suites lines) ordered ∙ m ∙ count,
          All-mapped (data_row d suites lines)
              (λ row. length row ≡ length (header_row d suites lines)) ordered
              (All-map (λ line. length (data_row d suites lines line) ≡ line_width lines)
                (λ line. length (data_row d suites lines line) ≡ length (header_row d suites lines))
                ordered (λ line e. e ∙ sym (length-header_row lines)) aligned),
        ),
      )

  abbrev pub Prints : ℕ → Option (List (List Char)) → Type 0
  Prints n printed = Finds (IsAligned n) printed

  pub tables_align :
      (now : W → ℕ × W) (pools : List (PoolSpec W)) (runs : ℕ) (w : W)
      → let results = (run_all_pools_on_suites d now suites pools runs w).0 in
        Prints (length pools) (print_summary_table_task_normalized d suites results)
        × Prints (length pools) (print_summary_table_suite_normalized d suites results)
  unfolding print_summary_table_task_normalized print_summary_table_suite_normalized
  tables_align now pools runs w =
      let results = (run_all_pools_on_suites d now suites pools runs w).0 in
      let (fits, count) =
        AreResults-AllFit d suites pools results (results_fit d now suites pools runs w) in
      let (best, e, (scores, f, scored)) = task_scores-Finds d suites results fits in
      let (text, g, aligned) =
        table-IsAligned "=============== Task Normalised ===============" results scores fits
          scored in
      let (best', e', (scores', f', scored')) = average_scores-Finds d suites results fits in
      let (text', g', aligned') =
        table-IsAligned "=============== Suite Normalised ===============" results scores' fits
          scored' in
      (
        (text, rw (e, f) g, subst (λ n. IsAligned n text) count aligned),
        (text', rw (e', f') g', subst (λ n. IsAligned n text') count aligned'),
      )

-- ===== src/Harness/Summary/Defined.antt =====
-- The scores of the tables of ThreadPoolBenchmark/Helpers.h: with the results of runAllPoolsOnSuites
-- no index is out of range.
use thread_pool_backtesting.Base.{
  suc, ◌≡◌, refl, sym, ap, ◌∙◌, Option, some, List, [], ◌∷◌, map, arith, length, length-replicate,
  replicate,
}
use thread_pool_backtesting.Harness.Doubles.{Double, add_all, min_double}
use thread_pool_backtesting.Harness.{SuiteSpec, PoolSpec, PoolResult}
use thread_pool_backtesting.Harness.Results.{Fits, IsResult, AreResults}
use thread_pool_backtesting.Harness.Summary.{
  min_row, min_rows, best_per_test, best_suite_ms, ratios, suite_scores, scored, score_tasks,
  score_suites, Scored,
}

-- A computation that finds its result, which has the property `P`.
abbrev pub Finds {ℓ} : {A : Type ℓ} → (A → Type ℓ) → Option A → Type ℓ
Finds {A = A} P o = (a : A) × (o ≡ some a) × P a

module _ {D : Type 0} (d : Double D) where
  min_row-Finds :
      (best times : List D)
      → length best ≡ length times
      → Finds (λ r. length r ≡ length best) (min_row d best times)
  unfolding min_row
  min_row-Finds [] times e = ([], refl, refl)
  min_row-Finds (b ∷ best) [] e = absurd (omega arith)
  min_row-Finds (b ∷ best) (t ∷ times) e =
      let (r, f, k) = min_row-Finds best times (omega arith) in
      (min_double d b t ∷ r, rw f refl, ap suc k)

  ratios-Finds :
      (best times : List D)
      → length best ≡ length times
      → Finds (λ r. length r ≡ length best) (ratios d best times)
  unfolding ratios
  ratios-Finds [] times e = ([], refl, refl)
  ratios-Finds (b ∷ best) [] e = absurd (omega arith)
  ratios-Finds (b ∷ best) (t ∷ times) e =
      let (r, f, k) = ratios-Finds best times (omega arith) in (d.over b t ∷ r, rw f refl, ap suc k)

module _ {D W : Type 0} (d : Double D) where
  -- A row for each suite, with an entry for each of its tests.
  abbrev pub Rows : List (SuiteSpec W) → List (List D) → Type 0
  Rows [] [] = Unit {0}
  Rows (suite ∷ suites) (row ∷ rows) = (length row ≡ length suite.tests) × Rows suites rows
  Rows _ _ = ⊥

  pub Fits-Rows :
      (suites : List (SuiteSpec W)) (rows : List (List D)) (averages : List D)
      → Fits d suites rows averages
      → Rows suites rows × (length averages ≡ length suites)
  Fits-Rows [] [] [] h = (tt, refl)
  Fits-Rows [] [] (a ∷ averages) h = absurd h
  Fits-Rows [] (row ∷ rows) averages h = absurd h
  Fits-Rows (suite ∷ suites) [] averages h = absurd h
  Fits-Rows (suite ∷ suites) (row ∷ rows) [] h = absurd h
  Fits-Rows (suite ∷ suites) (row ∷ rows) (a ∷ averages) h =
      let (r, e) = Fits-Rows suites rows averages h.2 in ((h.0, r), ap suc e)

  initial-Rows :
      (suites : List (SuiteSpec W))
      → Rows suites (map (λ s. replicate (length s.tests) d.max_value) suites)
  initial-Rows [] = tt
  initial-Rows (suite ∷ suites) =
      (length-replicate (length suite.tests) d.max_value, initial-Rows suites)

  min_rows-Finds :
      (suites : List (SuiteSpec W)) (best rows : List (List D))
      → Rows suites best
      → Rows suites rows
      → Finds (Rows suites) (min_rows d best rows)
  unfolding min_rows
  min_rows-Finds [] [] [] b r = ([], refl, tt)
  min_rows-Finds [] [] (row ∷ rows) b r = absurd r
  min_rows-Finds [] (x ∷ best) rows b r = absurd b
  min_rows-Finds (suite ∷ suites) [] rows b r = absurd b
  min_rows-Finds (suite ∷ suites) (x ∷ best) [] b r = absurd r
  min_rows-Finds (suite ∷ suites) (x ∷ best) (row ∷ rows) b r =
      let (first, e, k) = min_row-Finds d x row (b.0 ∙ sym r.0) in
      let (rest, f, l) = min_rows-Finds suites best rows b.1 r.1 in
      (first ∷ rest, rw (e, f) refl, (k ∙ b.0, l))

  -- The results, as the summaries use them.
  abbrev pub AllFit : List (SuiteSpec W) → List (PoolResult D) → Type 0
  AllFit suites [] = Unit {0}
  AllFit suites (r ∷ results) =
      Fits d suites r.per_test_avg_ms r.suite_averages × AllFit suites results

  pub AreResults-AllFit :
      (suites : List (SuiteSpec W)) (pools : List (PoolSpec W)) (results : List (PoolResult D))
      → AreResults d suites pools results
      → AllFit suites results × (length results ≡ length pools)
  AreResults-AllFit suites [] [] h = (tt, refl)
  AreResults-AllFit suites [] (r ∷ results) h = absurd h
  AreResults-AllFit suites (pool ∷ pools) [] h = absurd h
  AreResults-AllFit suites (pool ∷ pools) (r ∷ results) h =
      let (all, e) = AreResults-AllFit suites pools results h.1 in
      let first : IsResult d suites pool.pool_name r = h.0 in ((first.fits, all), ap suc e)

  best_per_test-Finds :
      (suites : List (SuiteSpec W)) (results : List (PoolResult D)) (best : List (List D))
      → Rows suites best
      → AllFit suites results
      → Finds (Rows suites) (best_per_test d best results)
  unfolding best_per_test
  best_per_test-Finds suites [] best b h = (best, refl, b)
  best_per_test-Finds suites (r ∷ results) best b h =
      let rows = (Fits-Rows suites r.per_test_avg_ms r.suite_averages h.0).0 in
      let (better, e, k) = min_rows-Finds suites best r.per_test_avg_ms b rows in
      let (final, f, l) = best_per_test-Finds suites results better k h.1 in
      (final, rw (e, f) refl, l)

  best_suite_ms-Finds :
      (suites : List (SuiteSpec W)) (results : List (PoolResult D)) (best : List D)
      → length best ≡ length suites
      → AllFit suites results
      → Finds (λ b. length b ≡ length suites) (best_suite_ms d best results)
  unfolding best_suite_ms
  best_suite_ms-Finds suites [] best b h = (best, refl, b)
  best_suite_ms-Finds suites (r ∷ results) best b h =
      let same = (Fits-Rows suites r.per_test_avg_ms r.suite_averages h.0).1 in
      let (better, e, k) = min_row-Finds d best r.suite_averages (b ∙ sym same) in
      let (final, f, l) = best_suite_ms-Finds suites results better (k ∙ b) h.1 in
      (final, rw (e, f) refl, l)

  suite_scores-Finds :
      (suites : List (SuiteSpec W)) (best rows : List (List D))
      → Rows suites best
      → Rows suites rows
      → Finds (λ r. length r ≡ length suites) (suite_scores d best rows)
  unfolding suite_scores
  suite_scores-Finds [] [] rows b r = ([], refl, refl)
  suite_scores-Finds [] (x ∷ best) rows b r = absurd b
  suite_scores-Finds (suite ∷ suites) [] rows b r = absurd b
  suite_scores-Finds (suite ∷ suites) (x ∷ best) [] b r = absurd r
  suite_scores-Finds (suite ∷ suites) (x ∷ best) (row ∷ rows) b r =
      let (shares, e, k) = ratios-Finds d x row (b.0 ∙ sym r.0) in
      let (rest, f, l) = suite_scores-Finds suites best rows b.1 r.1 in
      (
        d.over (add_all d (d.of_nat 0) shares) (d.of_nat (length x)) ∷ rest,
        rw (e, f) refl,
        ap suc l,
      )

  -- A score for each suite, for each of the pools.
  abbrev pub AllScored : List (SuiteSpec W) → List (PoolResult D) → List (Scored D) → Type 0
  AllScored suites [] [] = Unit {0}
  AllScored suites (r ∷ results) (s ∷ scores) =
      (length s.suite_score ≡ length suites) × AllScored suites results scores
  AllScored suites _ _ = ⊥

  score_tasks-Finds :
      (suites : List (SuiteSpec W)) (results : List (PoolResult D)) (best : List (List D))
      → Rows suites best
      → AllFit suites results
      → Finds (AllScored suites results) (score_tasks d best results)
  unfolding score_tasks
  score_tasks-Finds suites [] best b h = ([], refl, tt)
  score_tasks-Finds suites (r ∷ results) best b h =
      let rows = (Fits-Rows suites r.per_test_avg_ms r.suite_averages h.0).0 in
      let (scores, e, k) = suite_scores-Finds suites best r.per_test_avg_ms b rows in
      let (rest, f, l) = score_tasks-Finds suites results best b h.1 in
      (scored d scores ∷ rest, rw (e, f) refl, (k, l))

  score_suites-Finds :
      (suites : List (SuiteSpec W)) (results : List (PoolResult D)) (best : List D)
      → length best ≡ length suites
      → AllFit suites results
      → Finds (AllScored suites results) (score_suites d best results)
  unfolding score_suites
  score_suites-Finds suites [] best b h = ([], refl, tt)
  score_suites-Finds suites (r ∷ results) best b h =
      let same = (Fits-Rows suites r.per_test_avg_ms r.suite_averages h.0).1 in
      let (scores, e, k) = ratios-Finds d best r.suite_averages (b ∙ sym same) in
      let (rest, f, l) = score_suites-Finds suites results best b h.1 in
      (scored d scores ∷ rest, rw (e, f) refl, (k ∙ b, l))

  pub task_scores-Finds :
      (suites : List (SuiteSpec W)) (results : List (PoolResult D))
      → AllFit suites results
      → (best : List (List D)) × (best_per_test d
            (map (λ s. replicate (length s.tests) d.max_value) suites)
            results
          ≡ some best)
        × Finds (AllScored suites results) (score_tasks d best results)
  task_scores-Finds suites results h =
      let (best, e, k) =
        best_per_test-Finds suites results
          (map (λ s. replicate (length s.tests) d.max_value) suites) (initial-Rows suites) h in
      (best, e, score_tasks-Finds suites results best k h)

  pub average_scores-Finds :
      (suites : List (SuiteSpec W)) (results : List (PoolResult D))
      → AllFit suites results
      → (best : List D) × (best_suite_ms d (replicate (length suites) d.max_value) results
          ≡ some best)
        × Finds (AllScored suites results) (score_suites d best results)
  average_scores-Finds suites results h =
      let (best, e, k) =
        best_suite_ms-Finds suites results (replicate (length suites) d.max_value)
          (length-replicate (length suites) d.max_value) h in
      (best, e, score_suites-Finds suites results best k h)

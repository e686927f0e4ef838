-- ===== src/Ranges/Chunks.antt =====
-- `for (i = 0; i < n; i += step)` over chunks `[i, min(i + step, n))`, as run_task_group_batched of
-- oneTBB_Wrapper.h and the batched pools of main.cpp in ThreadPoolBenchmark write it, and tasks picked
-- by index.
use thread_pool_backtesting.Base.{
  ℕ, zero, suc, ◌+◌, ◌-◌, ◌≤◌, ◌<◌, ◌≡◌, refl, sym, ap, ◌∙◌, min, Option, some, List, [], ◌∷◌,
  arith, length, get_elem?, weigh, ltb, if◌then◌else◌, Bool-cases, dec_lt, inl, inr, ltb→lt,
}
use thread_pool_backtesting.Ranges.{
  ◌>>=◌, sum_from, over_range, AllWithin, sum_from-split, weight_at, Runs, get_elem?-some,
}

-- `fuel` bounds the rounds; a round goes on by `step`, so `n` rounds are enough.
unfoldable pub chunks_from : ℕ → ℕ → ℕ → ℕ → List (ℕ × ℕ)
chunks_from zero i n step = []
chunks_from (suc fuel) i n step =
    let rest = chunks_from fuel (i + step) n step in
    if ltb i n then (i, min (i + step) n) ∷ rest else []

unfoldable pub chunks : ℕ → ℕ → List (ℕ × ℕ)
unfolding chunks_from
chunks n step = chunks_from n 0 n step

-- A chunk and what follows it.
first_chunk :
    (w : ℕ → ℕ) (i n step : ℕ)
    → i < n
    → sum_from w i (n - i)
      ≡ sum_from w i (min (i + step) n - i) + sum_from w (i + step) (n - (i + step))
first_chunk w i n step lt = elim (dec_lt n (i + step)) [
  | yes last ↦
      let e : n - (i + step) ≡ 0 = omega arith in
      let f : min (i + step) n - i ≡ n - i = omega arith in rw (e, f) (omega arith)
  | no more ↦
      let e : n - i ≡ step + (n - (i + step)) = omega arith in
      let f : min (i + step) n - i ≡ step = omega arith in
      ap (sum_from w i) e
      ∙ sum_from-split w i step (n - (i + step))
      ∙ ap (λ k. sum_from w i k + sum_from w (i + step) (n - (i + step))) (sym f)
]

chunks_from_lem :
    (w : ℕ → ℕ) (fuel i n step : ℕ)
    → 0 < step
    → n ≤ i + fuel
    → AllWithin n (chunks_from fuel i n step)
      × (weigh (over_range w) (chunks_from fuel i n step) ≡ sum_from w i (n - i))
unfolding chunks_from
chunks_from_lem w zero i n step s h = let e : n - i ≡ 0 = omega arith in (tt, rw e refl)
chunks_from_lem w (suc fuel) i n step s h = elim (Bool-cases (ltb i n)) [
  | inl more ↦
      let ih = chunks_from_lem w fuel (i + step) n step s (omega arith) in
      let lt : i < n = ltb→lt i n more in
      rw more ((omega arith, omega arith, ih.0), omega (arith, ih.1, first_chunk w i n step lt))
  | inr done ↦ let e : n - i ≡ 0 = ground arith in rw done (tt, rw e refl)
]

-- The chunks of `[0, n)` lie within it and cover each index once.
pub chunks_cover :
    (w : ℕ → ℕ) (n step : ℕ)
    → 0 < step
    → AllWithin n (chunks n step) × (weigh (over_range w) (chunks n step) ≡ sum_from w 0 n)
unfolding chunks
chunks_cover w n step s =
    let e : n - 0 ≡ n = omega arith in
    let (within, covered) = chunks_from_lem w n 0 n step s (omega arith) in
    (within, covered ∙ ap (sum_from w 0) e)

abbrev pub AllBelow : ℕ → List ℕ → Type 0
AllBelow n [] = Unit {0}
AllBelow n (i ∷ is) = (i < n) × AllBelow n is

-- The elements at the given indices, in their order; `none` is an index out of range.
unfoldable pub gather : {A : Type 0} → List A → List ℕ → Option (List A)
gather xs [] = some []
gather xs (i ∷ is) = do x ← get_elem? xs i; rest ← gather xs is; some (x ∷ rest)

pub gather-Runs :
    {A : Type 0} (w : A → ℕ) (xs : List A) (is : List ℕ)
    → AllBelow (length xs) is
    → Runs w (gather xs is) (weigh (weight_at w xs) is)
unfolding gather
gather-Runs w xs [] h = ([], refl, refl)
gather-Runs w xs (i ∷ is) h =
    let (x, e) = get_elem?-some xs i h.0 in
    let (ys, f, k) = gather-Runs w xs is h.1 in (x ∷ ys, rw (e, f) refl, rw (e, k) refl)

get_elem?-AllWithin :
    (n : ℕ) (rs : List (ℕ × ℕ)) (i : ℕ) (r : ℕ × ℕ)
    → AllWithin n rs
    → get_elem? rs i ≡ some r
    → (r.0 ≤ r.1) × (r.1 ≤ n)
get_elem?-AllWithin n [] i r h e = cc
get_elem?-AllWithin n (q ∷ rs) zero r h e = ground arith
get_elem?-AllWithin n (q ∷ rs) (suc i) r h e = get_elem?-AllWithin n rs i r h.2 e

-- Chunks picked by index are within the range, and weigh what the indices say.
pub gather-AllWithin :
    (w : ℕ → ℕ) (n : ℕ) (rs : List (ℕ × ℕ)) (is : List ℕ)
    → AllWithin n rs
    → AllBelow (length rs) is
    → (qs : List (ℕ × ℕ)) × (gather rs is ≡ some qs)
      × AllWithin n qs
      × (weigh (over_range w) qs ≡ weigh (weight_at (over_range w) rs) is)
unfolding gather
gather-AllWithin w n rs [] h b = ([], refl, tt, refl)
gather-AllWithin w n rs (i ∷ is) h b =
    let (r, e) = get_elem?-some rs i b.0 in
    let (qs, f, within, k) = gather-AllWithin w n rs is h b.1 in
    let bounds = get_elem?-AllWithin n rs i r h e in
    (r ∷ qs, rw (e, f) refl, (bounds.0, bounds.1, within), rw (e, k) refl)

-- ===== src/Slots/Writes.antt =====
-- The writes of ThreadPoolBenchmark/FalseSharing.h: in range on a first call, and not on a larger one.
use thread_pool_backtesting.Base.{
  ℕ, zero, suc, ◌^◌, ◌≤◌, ◌<◌, ◌≡◌, ◌≢◌, refl, subst, ap, ◌∙◌, none, some, List, [], ◌∷◌, arith,
  length, get_elem?, weigh, inl, inr, ◌⊎◌, dec_lt, ℕ_discrete,
}
use thread_pool_backtesting.Ranges.Chunks.{AllBelow}
use thread_pool_backtesting.Ranges.Orders.{IsOrder, is_task, every_task}
use thread_pool_backtesting.Contention.{run_tasks}
use thread_pool_backtesting.Slots.{
  Spacing, adjacent_slots, padded_slots, stride_slots, place_of, places, value_of, store, write_own,
  test_slots,
}

kept_behind :
    (x : ℕ) (xs ys : List ℕ) (i : ℕ)
    → ((j : ℕ) → i ≢ j → get_elem? ys j ≡ get_elem? xs j)
    → (j : ℕ) → suc i ≢ j
    → get_elem? (x ∷ ys) j ≡ get_elem? (x ∷ xs) j
kept_behind x xs ys i kept zero apart = refl
kept_behind x xs ys i kept (suc j) apart = kept j (λ e. apart (ap suc e))

store-some :
    (xs : List ℕ) (i v : ℕ)
    → i < length xs
    → (ys : List ℕ) × (store xs i v ≡ some ys)
      × (length ys ≡ length xs)
      × (get_elem? ys i ≡ some v)
      × ((j : ℕ) → i ≢ j → get_elem? ys j ≡ get_elem? xs j)
unfolding store
store-some [] i v h = absurd (omega arith)
store-some (x ∷ xs) zero v h = (v ∷ xs, refl, refl, refl, others)
  where
    others : (j : ℕ) → 0 ≢ j → get_elem? (v ∷ xs) j ≡ get_elem? (x ∷ xs) j
    others zero apart = absurd (apart refl)
    others (suc j) apart = refl
store-some (x ∷ xs) (suc i) v h =
    let (ys, e, k, own, apart) = store-some xs i v (omega arith) in
    (x ∷ ys, rw e refl, ap suc k, own, kept_behind x xs ys i apart)

store-none : (xs : List ℕ) (i v : ℕ) → length xs ≤ i → store xs i v ≡ none
unfolding store
store-none [] i v h = refl
store-none (x ∷ xs) zero v h = absurd (omega arith)
store-none (x ∷ xs) (suc i) v h = rw (store-none xs i v (omega arith)) refl

-- With fewer than 2^57 tasks no place wraps around.
place-below :
    (spacing : Spacing) (i n : ℕ) → n < 2 ^ 57 → i < n → place_of spacing i < places spacing n
place-below adjacent_slots i n small lt = lt
place-below padded_slots i n small lt = lt
place-below stride_slots i n small lt = omega arith

places-le :
    (spacing : Spacing) (m n : ℕ) → n < 2 ^ 57 → m ≤ n → places spacing m ≤ place_of spacing n
places-le adjacent_slots m n small h = h
places-le padded_slots m n small h = h
places-le stride_slots m n small h = omega arith

places_mono :
    (spacing : Spacing) (m n : ℕ) → n < 2 ^ 57 → m ≤ n → places spacing m ≤ places spacing n
places_mono adjacent_slots m n small h = h
places_mono padded_slots m n small h = h
places_mono stride_slots m n small h = omega arith

place-apart :
    (spacing : Spacing) (i j : ℕ)
    → i < 2 ^ 57
    → j < 2 ^ 57
    → i ≢ j
    → place_of spacing i ≢ place_of spacing j
place-apart adjacent_slots i j si sj apart = apart
place-apart padded_slots i j si sj apart = apart
place-apart stride_slots i j si sj apart = λ e. apart (omega arith)

abbrev pub Written : Spacing → List ℕ → ℕ → Type 0
Written spacing xs i = get_elem? xs (place_of spacing i) ≡ some (value_of spacing i)

pub writes-Written :
    (spacing : Spacing) (n : ℕ) (order : List ℕ) (xs : List ℕ)
    → n < 2 ^ 57
    → AllBelow n order
    → places spacing n ≤ length xs
    → (ys : List ℕ) × (run_tasks (write_own spacing) order xs ≡ some ys)
      × (length ys ≡ length xs)
      × ((i : ℕ)
          → i < n
          → Written spacing xs i ⊎ (0 < weigh (is_task i) order)
          → Written spacing ys i)
unfolding run_tasks
writes-Written spacing n [] xs small b e =
    (xs, refl, refl, λ i lt h. elim h [ inl written ↦ written | inr never ↦ absurd (omega arith) ])
writes-Written spacing n (j ∷ order) xs small b e =
    let (xs', f, k, own, kept) =
      store-some xs (place_of spacing j) (value_of spacing j)
        (omega (arith, place-below spacing j n small b.0)) in
    let (ys, g, l, later) = writes-Written spacing n order xs' small b.1 (omega (arith, k)) in
    (
      ys,
      rw (f, g) refl,
      l ∙ k,
      λ i lt h. later i lt (elim (ℕ_discrete j i) [
        | yes same ↦ inl (subst (Written spacing xs') same own)
        | no apart ↦ elim h [
          | inl written ↦ inl (
              kept (place_of spacing i)
                (place-apart spacing j i (omega (arith, b.0)) (omega arith) apart)
              ∙ written)
          | inr some_later ↦ inr (ground arith)
        ]
      ]),
    )

-- A write out of range is one too many for the whole call.
writes-none :
    (spacing : Spacing) (order xs : List ℕ) (i : ℕ)
    → length xs ≤ place_of spacing i
    → 0 < weigh (is_task i) order
    → run_tasks (write_own spacing) order xs ≡ none
unfolding run_tasks
writes-none spacing [] xs i far occurs = absurd (omega arith)
writes-none spacing (j ∷ order) xs i far occurs = elim (ℕ_discrete j i) [
  | yes same ↦
      let stuck = store-none xs (place_of spacing i) (value_of spacing j) far in
      rw (ap (place_of spacing) same, stuck) refl
  | no apart ↦ elim (dec_lt (place_of spacing j) (length xs)) [
    | no out ↦ rw (store-none xs (place_of spacing j) (value_of spacing j) (omega arith)) refl
    | yes within ↦
        let (ys, e, k, own, kept) =
          store-some xs (place_of spacing j) (value_of spacing j) within in
        rw e (writes-none spacing order ys i (omega (arith, k)) (ground arith))
  ]
]

-- A later call, with a pool that runs each task once, finds the vector that the first call made
-- for its tasks: with no more tasks than that every write is in range, and with more (both fewer
-- than 2^57) some write is out of range.
pub later_call_writes :
    (order : ℕ → List ℕ) (spacing : Spacing) (num_tasks more : ℕ) (slots : List ℕ)
    → IsOrder order
    → num_tasks < 2 ^ 57
    → more < 2 ^ 57
    → length slots ≡ places spacing num_tasks
    → (more ≤ num_tasks
        → (slots' : List ℕ) × (test_slots order spacing more (some slots) ≡ some slots'))
      × (num_tasks < more → test_slots order spacing more (some slots) ≡ none)
unfolding test_slots
later_call_writes order spacing n more slots law small small' e = (
  λ h.
      let (slots', f, k, written) =
        writes-Written spacing more (order more) slots small' (law.below more)
          (omega (arith, e, places_mono spacing more n small h)) in
      (slots', f),
  λ h.
      writes-none spacing (order more) slots n
        (omega (arith, e, places-le spacing n n small (omega arith)))
        (every_task order more n law h),
)

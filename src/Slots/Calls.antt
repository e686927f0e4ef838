-- ===== src/Slots/Calls.antt =====
-- The calls of a test of ThreadPoolBenchmark/FalseSharing.h, one after the other, each on a pool of its own
-- but on the same static vector or counter, as the harness makes them: with the same number of tasks.
use native.Mathlib.Nat.{suc-mul}
use thread_pool_backtesting.Base.{
  ℕ, suc, ◌+◌, ◌*◌, ◌^◌, ◌<◌, ◌≡◌, refl, ap, ◌∙◌, inr, Option, none, some, List, [], ◌∷◌, arith,
  length, length-replicate, get_elem?, size_mod,
}
use thread_pool_backtesting.Ranges.{◌>>=◌}
use thread_pool_backtesting.Ranges.Orders.{IsOrder, order-length, every_task}
use thread_pool_backtesting.Contention.{run_tasks, increment_counter}
use thread_pool_backtesting.Contention.Counts.{counter-run}
use thread_pool_backtesting.Slots.{
  Spacing, place_of, places, value_of, static_slots, test_slots, test_shared_counter,
}
use thread_pool_backtesting.Slots.Writes.{Written, writes-Written}

-- The vector after a call for each of the orders.
unfoldable pub call_slots :
    Spacing → (num_tasks : ℕ) → List (ℕ → List ℕ) → Option (List ℕ) → Option (Option (List ℕ))
call_slots spacing num_tasks [] made = some made
call_slots spacing num_tasks (order ∷ orders) made = do
  slots ← test_slots order spacing num_tasks made
  call_slots spacing num_tasks orders (some slots)

unfoldable pub call_shared_counter : (num_tasks : ℕ) → List (ℕ → List ℕ) → ℕ → Option ℕ
call_shared_counter num_tasks [] shared_counter = some shared_counter
call_shared_counter num_tasks (order ∷ orders) shared_counter = do
  after ← test_shared_counter order num_tasks shared_counter
  call_shared_counter num_tasks orders after

abbrev pub AllOrders : List (ℕ → List ℕ) → Type 0
AllOrders [] = Unit {0}
AllOrders (order ∷ orders) = IsOrder order × AllOrders orders

-- What every call finds and leaves: a vector of the right size, or none yet.
abbrev Sized : Spacing → ℕ → Option (List ℕ) → Type 0
Sized spacing n none = Unit {0}
Sized spacing n (some slots) = length slots ≡ places spacing n

static-length :
    (spacing : Spacing) (n : ℕ) (made : Option (List ℕ))
    → Sized spacing n made
    → length (static_slots spacing n made) ≡ places spacing n
static-length spacing n none h = length-replicate (places spacing n) 0
static-length spacing n (some slots) h = h

pub call-Written :
    (order : ℕ → List ℕ) (spacing : Spacing) (n : ℕ) (made : Option (List ℕ))
    → IsOrder order
    → n < 2 ^ 57
    → Sized spacing n made
    → (slots : List ℕ) × (test_slots order spacing n made ≡ some slots)
      × (length slots ≡ places spacing n)
      × ((i : ℕ) → i < n → Written spacing slots i)
unfolding test_slots
call-Written order spacing n made law small h =
    let size = static-length spacing n made h in
    let (slots, e, k, written) =
      writes-Written spacing n (order n) (static_slots spacing n made) small (law.below n)
        (omega (arith, size)) in
    (slots, e, k ∙ size, λ i lt. written i lt (inr (every_task order n i law lt)))

calls-Written :
    (orders : List (ℕ → List ℕ)) (spacing : Spacing) (n : ℕ) (slots : List ℕ)
    → AllOrders orders
    → n < 2 ^ 57
    → length slots ≡ places spacing n
    → ((i : ℕ) → i < n → Written spacing slots i)
    → (final : List ℕ) × (call_slots spacing n orders (some slots) ≡ some (some final))
      × (length final ≡ places spacing n)
      × ((i : ℕ) → i < n → Written spacing final i)
unfolding call_slots
calls-Written [] spacing n slots laws small size written = (slots, refl, size, written)
calls-Written (order ∷ orders) spacing n slots laws small size written =
    let (next, e, size', written') = call-Written order spacing n (some slots) laws.0 small size in
    let (final, f, size'', written'') =
      calls-Written orders spacing n next laws.1 small size' written' in
    (final, rw (e, f) refl, size'', written'')

-- However often a test is called with one and the same number of tasks (fewer than 2^57), and
-- whatever pool each call has, if it runs each task once: no write of any call is out of range,
-- and after the last call each task's place holds that task's value.
pub repeated_calls_write :
    (order : ℕ → List ℕ) (orders : List (ℕ → List ℕ)) (spacing : Spacing) (num_tasks : ℕ)
    → AllOrders (order ∷ orders)
    → num_tasks < 2 ^ 57
    → (slots : List ℕ) × (call_slots spacing num_tasks (order ∷ orders) none ≡ some (some slots))
      × (length slots ≡ places spacing num_tasks)
      × ((i : ℕ) → i < num_tasks → get_elem? slots (place_of spacing i) ≡ some (value_of spacing i))
unfolding call_slots
repeated_calls_write order orders spacing n laws small =
    let (first, e, size, written) = call-Written order spacing n none laws.0 small tt in
    let (final, f, size', written') =
      calls-Written orders spacing n first laws.1 small size written in
    (final, rw (e, f) refl, size', written')

-- The shared counter goes up by the number of tasks at each call, as long as it stays below 2^64.
pub repeated_calls_count :
    (orders : List (ℕ → List ℕ)) (num_tasks shared_counter : ℕ)
    → AllOrders orders
    → shared_counter + length orders * num_tasks < size_mod
    → call_shared_counter num_tasks orders shared_counter
      ≡ some (shared_counter + length orders * num_tasks)
unfolding call_shared_counter test_shared_counter
repeated_calls_count [] n c laws small = ap some (omega arith)
repeated_calls_count (order ∷ orders) n c laws small =
    let len = order-length order n laws.0 in
    let e : suc (length orders) * n ≡ length orders * n + n = suc-mul (length orders) n in
    let once : run_tasks increment_counter (order n) c ≡ some (c + n) =
      counter-run (order n) c (omega (arith, len, e)) ∙ ap some (omega (arith, len)) in
    let rest = repeated_calls_count orders n (c + n) laws.1 (omega (arith, e)) in
    rw once (rest ∙ ap some (omega (arith, e)))

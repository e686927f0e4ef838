-- ===== src/Slots/Tests.antt =====
-- The theorems on ThreadPoolBenchmark/FalseSharing.h at concrete calls.
use thread_pool_backtesting.Base.{
  ℕ, ◌<◌, ◌≤◌, ◌≡◌, refl, none, some, List, [], ◌∷◌, arith, length, get_elem?,
}
use thread_pool_backtesting.Ranges.Orders.{ascending, ascending-IsOrder}
use thread_pool_backtesting.Slots.{
  adjacent_slots, stride_slots, place_of, places, value_of, test_slots,
}
use thread_pool_backtesting.Slots.Writes.{later_call_writes}
use thread_pool_backtesting.Slots.Calls.{call_slots, repeated_calls_write}

repeated_calls_write_example :
    (slots : List ℕ) × (call_slots stride_slots 3 (ascending 0 ∷ ascending 0 ∷ []) none
      ≡ some (some slots))
    × (length slots ≡ places stride_slots 3)
    × ((i : ℕ) → i < 3 → get_elem? slots (place_of stride_slots i) ≡ some (value_of stride_slots i))
repeated_calls_write_example =
    repeated_calls_write (ascending 0) (ascending 0 ∷ []) stride_slots 3
      (ascending-IsOrder, (ascending-IsOrder, tt)) (omega arith)

-- A call with three tasks after one with two.
later_call_writes_example :
    (3 ≤ 2
      → (slots : List ℕ) × (test_slots (ascending 0) adjacent_slots 3 (some (0 ∷ 1 ∷ []))
          ≡ some slots))
    × (2 < 3 → test_slots (ascending 0) adjacent_slots 3 (some (0 ∷ 1 ∷ [])) ≡ none)
later_call_writes_example =
    later_call_writes (ascending 0) adjacent_slots 2 3 (0 ∷ 1 ∷ []) ascending-IsOrder (omega arith)
      (omega arith) refl

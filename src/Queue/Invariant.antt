-- ===== src/Queue/Invariant.antt =====
-- What holds of a ThreadSafeQueue between calls (ThreadPoolBenchmark/ThreadSafeQueue.h).
use thread_pool_backtesting.Base.{
  ℕ, ◌%◌, ◌≤◌, ◌<◌, ◌≡◌, refl, Bool, List, [], ◌∷◌, arith, length, length-append, size_mod,
}
use thread_pool_backtesting.Queue.{
  ThreadSafeQueue, new, try_push_locked, try_push, push, try_pop, wait_pop, wait_pop_for, shut_down,
  clear,
}
use thread_pool_backtesting.Queue.Call.{
  Call, call, try_pushes, late_try_pushes, pushes, resumes_push, leaves_push, try_pops, wait_pops,
  resumes_pop, leaves_pop, timed_pops, resumes_timed_pop, leaves_timed_pop, shuts_down, clears,
  resume_cv, leave_cv, resume_cv_full, leave_cv_full,
}

-- The counter counts, up to the range of a `size_t`, and a bounded queue is within its bound.
pub record IsValid {ℓ} {A : Type ℓ} (q : ThreadSafeQueue A) : Type 0 where
  pub counted : q.size ≡ length q.queue % size_mod
  pub within : 0 < q.max_size → length q.queue ≤ q.max_size

module _ {ℓ} {A : Type ℓ} where
  pub new-IsValid : (max_size : ℕ) → IsValid (new {A = A} max_size)
  unfolding new
  new-IsValid max_size = record { counted = refl; within = λ _. omega arith }

  module _ (q : ThreadSafeQueue A) (v : IsValid q) where
    try_push_locked-IsValid : (a : A) → IsValid (try_push_locked q a).0
    unfolding try_push_locked
    try_push_locked-IsValid a = ground (arith, length-append q.queue (a ∷ []), v.counted, v.within)

    try_push-IsValid : (a : A) → IsValid (try_push q a).0
    unfolding try_push
    try_push-IsValid a = ground (arith, length-append q.queue (a ∷ []), v.counted, v.within)

    push-IsValid : (a : A) → IsValid (push q a).0
    unfolding push
    push-IsValid a = ground (arith, length-append q.queue (a ∷ []), v.counted, v.within)

  wait_pop-IsValid :
      (q : ThreadSafeQueue A) (xs : List A) → q.queue ≡ xs → IsValid q → IsValid (wait_pop q).0
  unfolding wait_pop
  wait_pop-IsValid q [] e v = ground (arith, v.counted, v.within)
  wait_pop-IsValid q (x ∷ xs) e v = ground (arith, v.counted, v.within)

  wait_pop_for-IsValid :
      (q : ThreadSafeQueue A) (xs : List A) (elapsed : Bool)
      → q.queue ≡ xs
      → IsValid q
      → IsValid (wait_pop_for q elapsed).0
  unfolding wait_pop_for
  wait_pop_for-IsValid q [] elapsed e v = ground (arith, v.counted, v.within)
  wait_pop_for-IsValid q (x ∷ xs) elapsed e v = ground (arith, v.counted, v.within)

  try_pop-IsValid :
      (q : ThreadSafeQueue A) (xs : List A) → q.queue ≡ xs → IsValid q → IsValid (try_pop q).0
  unfolding try_pop
  try_pop-IsValid q [] e v = ground (arith, v.counted, v.within)
  try_pop-IsValid q (x ∷ xs) e v = ground (arith, v.counted, v.within)

  -- Every call keeps the atomic counter equal to the number of items, modulo the range of a
  -- size_t, and a bounded queue within its bound.
  pub call-IsValid : (q : ThreadSafeQueue A) (c : Call A) → IsValid q → IsValid (call q c)
  unfolding call shut_down clear resume_cv resume_cv_full leave_cv leave_cv_full
  call-IsValid q (try_pushes a) v = try_push-IsValid q v a
  call-IsValid q (late_try_pushes a) v = try_push_locked-IsValid q v a
  call-IsValid q (pushes a) v = push-IsValid q v a
  call-IsValid q (resumes_push a) v = push-IsValid (resume_cv_full q) (ground arith) a
  call-IsValid q (leaves_push a) v = push-IsValid (leave_cv_full q) (ground arith) a
  call-IsValid q try_pops v = try_pop-IsValid q q.queue refl v
  call-IsValid q wait_pops v = wait_pop-IsValid q q.queue refl v
  call-IsValid q resumes_pop v = wait_pop-IsValid (resume_cv q) q.queue refl (ground arith)
  call-IsValid q leaves_pop v = wait_pop-IsValid (leave_cv q) q.queue refl (ground arith)
  call-IsValid q (timed_pops t) v = wait_pop_for-IsValid q q.queue t refl v
  call-IsValid q (resumes_timed_pop t) v =
      wait_pop_for-IsValid (resume_cv q) q.queue t refl (ground arith)
  call-IsValid q (leaves_timed_pop t) v =
      wait_pop_for-IsValid (leave_cv q) q.queue t refl (ground arith)
  call-IsValid q shuts_down v = ground arith
  call-IsValid q clears v = ground arith

-- ===== src/Queue/Wakeup.antt =====
-- No wake-up is lost (ThreadPoolBenchmark/ThreadSafeQueue.h, `_cv` and `_cvFull`).
use thread_pool_backtesting.Base.{
  ◌+◌, ◌-◌, ◌≤◌, ◌<◌, ◌≡◌, refl, Bool, true, List, [], ◌∷◌, arith, length, length-append, ◌≢◌,
}
use thread_pool_backtesting.Queue.{
  ThreadSafeQueue, try_push_locked, try_push, push, try_pop, wait_pop, wait_pop_for, shut_down,
  clear,
}
use thread_pool_backtesting.Queue.Call.{
  Call, call, try_pushes, late_try_pushes, pushes, resumes_push, leaves_push, try_pops, wait_pops,
  resumes_pop, leaves_pop, timed_pops, resumes_timed_pop, leaves_timed_pop, shuts_down, clears,
  resume_cv, leave_cv, resume_cv_full, leave_cv_full,
}

-- While a consumer sleeps, each item has a woken thread that will look for it; while a producer
-- sleeps, so has each free place. After a shutdown nobody sleeps.
pub record IsAwake {ℓ} {A : Type ℓ} (q : ThreadSafeQueue A) : Type 0 where
  pub items_seen : 0 < q.cv.sleeping → length q.queue ≤ q.cv.woken
  pub places_seen : 0 < q.cv_full.sleeping → q.max_size - length q.queue ≤ q.cv_full.woken
  pub closed_awake : q.shutdown ≡ true → (q.cv.sleeping ≡ 0) × (q.cv_full.sleeping ≡ 0)

module _ {ℓ} {A : Type ℓ} where
  module _ (q : ThreadSafeQueue A) (v : IsAwake q) where
    try_push_locked-IsAwake : (a : A) → IsAwake (try_push_locked q a).0
    unfolding try_push_locked
    try_push_locked-IsAwake a =
        ground (arith, length-append q.queue (a ∷ []), v.items_seen, v.places_seen, v.closed_awake)

    try_push-IsAwake : (a : A) → IsAwake (try_push q a).0
    unfolding try_push
    try_push-IsAwake a =
        ground (arith, length-append q.queue (a ∷ []), v.items_seen, v.places_seen, v.closed_awake)

    push-IsAwake : (a : A) → IsAwake (push q a).0
    unfolding push
    push-IsAwake a =
        ground (arith, length-append q.queue (a ∷ []), v.items_seen, v.places_seen, v.closed_awake)

    resumes_push-IsAwake : (a : A) → IsAwake (push (resume_cv_full q) a).0
    unfolding push resume_cv_full
    resumes_push-IsAwake a =
        ground (arith, length-append q.queue (a ∷ []), v.items_seen, v.places_seen, v.closed_awake)

    leaves_push-IsAwake : (a : A) → IsAwake (push (leave_cv_full q) a).0
    unfolding push leave_cv_full
    leaves_push-IsAwake a =
        ground (arith, length-append q.queue (a ∷ []), v.items_seen, v.places_seen, v.closed_awake)

  -- A pop by a thread that is not, or no longer, counted at `cv`. Only the items' side depends on how
  -- the thread came to the mutex.
  abbrev Pops : ThreadSafeQueue A → List A → Type 0
  Pops q xs =
      (0 < q.cv.sleeping → length xs ≤ q.cv.woken + 1)
      × (0 < q.cv_full.sleeping → q.max_size - length xs ≤ q.cv_full.woken)
      × (q.shutdown ≡ true → (q.cv.sleeping ≡ 0) × (q.cv_full.sleeping ≡ 0))

  wait_pop-IsAwake :
      (q : ThreadSafeQueue A) (xs : List A) → q.queue ≡ xs → Pops q xs → IsAwake (wait_pop q).0
  unfolding wait_pop
  wait_pop-IsAwake q [] e v = ground (arith, v.0, v.1, v.2)
  wait_pop-IsAwake q (x ∷ xs) e v = ground (arith, v.0, v.1, v.2)

  wait_pop_for-IsAwake :
      (q : ThreadSafeQueue A) (xs : List A) (elapsed : Bool)
      → q.queue ≡ xs
      → Pops q xs
      → IsAwake (wait_pop_for q elapsed).0
  unfolding wait_pop_for
  wait_pop_for-IsAwake q [] elapsed e v = ground (arith, v.0, v.1, v.2)
  wait_pop_for-IsAwake q (x ∷ xs) elapsed e v = ground (arith, v.0, v.1, v.2)

  try_pop-IsAwake :
      (q : ThreadSafeQueue A) (xs : List A) → q.queue ≡ xs → IsAwake q → IsAwake (try_pop q).0
  unfolding try_pop
  try_pop-IsAwake q [] e v = ground (arith, v.items_seen, v.places_seen, v.closed_awake)
  try_pop-IsAwake q (x ∷ xs) e v = ground (arith, v.items_seen, v.places_seen, v.closed_awake)

  here-Pops : (q : ThreadSafeQueue A) → IsAwake q → Pops q q.queue
  here-Pops q v = ground (arith, v.items_seen, v.places_seen, v.closed_awake)

  resume-Pops : (q : ThreadSafeQueue A) → IsAwake q → Pops (resume_cv q) q.queue
  unfolding resume_cv
  resume-Pops q v = ground (arith, v.items_seen, v.places_seen, v.closed_awake)

  leave-Pops : (q : ThreadSafeQueue A) → IsAwake q → Pops (leave_cv q) q.queue
  unfolding leave_cv
  leave-Pops q v = ground (arith, v.items_seen, v.places_seen, v.closed_awake)

  -- Every call but clear keeps this: while a consumer sleeps each item has a woken thread, while a
  -- producer sleeps each free place has one, and after a shutdown nobody sleeps. So no wake-up is
  -- lost.
  pub call-IsAwake :
      (q : ThreadSafeQueue A) (c : Call A) → c ≢ clears → IsAwake q → IsAwake (call q c)
  unfolding call shut_down resume_cv leave_cv
  call-IsAwake q (try_pushes a) h v = try_push-IsAwake q v a
  call-IsAwake q (late_try_pushes a) h v = try_push_locked-IsAwake q v a
  call-IsAwake q (pushes a) h v = push-IsAwake q v a
  call-IsAwake q (resumes_push a) h v = resumes_push-IsAwake q v a
  call-IsAwake q (leaves_push a) h v = leaves_push-IsAwake q v a
  call-IsAwake q try_pops h v = try_pop-IsAwake q q.queue refl v
  call-IsAwake q wait_pops h v = wait_pop-IsAwake q q.queue refl (here-Pops q v)
  call-IsAwake q resumes_pop h v = wait_pop-IsAwake (resume_cv q) q.queue refl (resume-Pops q v)
  call-IsAwake q leaves_pop h v = wait_pop-IsAwake (leave_cv q) q.queue refl (leave-Pops q v)
  call-IsAwake q (timed_pops t) h v = wait_pop_for-IsAwake q q.queue t refl (here-Pops q v)
  call-IsAwake q (resumes_timed_pop t) h v =
      wait_pop_for-IsAwake (resume_cv q) q.queue t refl (resume-Pops q v)
  call-IsAwake q (leaves_timed_pop t) h v =
      wait_pop_for-IsAwake (leave_cv q) q.queue t refl (leave-Pops q v)
  call-IsAwake q shuts_down h v = ground arith
  call-IsAwake q clears h v = absurd (h refl)

  -- clear makes room and notifies nobody: with a producer asleep and more places than woken
  -- producers, the wake-up invariant fails after it.
  clear_loses_wakeup :
      (q : ThreadSafeQueue A)
      → 0 < q.cv_full.sleeping
      → q.cv_full.woken < q.max_size
      → ¬ IsAwake (clear q)
  unfolding clear
  clear_loses_wakeup q asleep room v =
      let seen : q.max_size - 0 ≤ q.cv_full.woken = v.places_seen asleep in omega arith

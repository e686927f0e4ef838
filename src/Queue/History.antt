-- ===== src/Queue/History.antt =====
-- The queue against its history: first in, first out, nothing lost and nothing made up
-- (ThreadPoolBenchmark/ThreadSafeQueue.h).
use mathlib.Core.List.{append-nil, append_assoc}
use thread_pool_backtesting.Base.{
  ◌≡◌, refl, sym, ap, ◌∙◌, Bool, true, false, Option, none, some, List, [], ◌∷◌, ◌++◌, arith,
}
use thread_pool_backtesting.Queue.{
  ThreadSafeQueue, Attempt, blocked, returns, try_push_locked, try_push, push, try_pop, wait_pop,
  wait_pop_for, shut_down, clear,
}
use thread_pool_backtesting.Queue.Call.{
  Call, call, try_pushes, late_try_pushes, pushes, resumes_push, leaves_push, try_pops, wait_pops,
  resumes_pop, leaves_pop, timed_pops, resumes_timed_pop, leaves_timed_pop, shuts_down, clears,
  resume_cv, leave_cv, resume_cv_full, leave_cv_full,
}

module _ {ℓ} {A : Type ℓ} where
  -- The value of a push that reports success.
  abbrev pub if_pushed : A → Bool → List A
  if_pushed v true = v ∷ []
  if_pushed v false = []

  abbrev pub if_returned : A → Attempt Bool → List A
  if_returned v blocked = []
  if_returned v (returns b) = if_pushed v b

  -- The value of a pop that reports success.
  abbrev pub popped : Option A → List A
  popped none = []
  popped (some v) = v ∷ []

  abbrev pub popped_attempt : Attempt (Option A) → List A
  popped_attempt blocked = []
  popped_attempt (returns r) = popped r

  -- What a call puts in, by its own report.
  pub puts : ThreadSafeQueue A → Call A → List A
  puts q (try_pushes v) = if_pushed v (try_push q v).1
  puts q (late_try_pushes v) = if_pushed v (try_push_locked q v).1
  puts q (pushes v) = if_returned v (push q v).1
  puts q (resumes_push v) = if_returned v (push (resume_cv_full q) v).1
  puts q (leaves_push v) = if_returned v (push (leave_cv_full q) v).1
  puts q _ = []

  -- What a call takes out: the result of a pop, or all that a `clear` discards.
  pub takes : ThreadSafeQueue A → Call A → List A
  takes q try_pops = popped (try_pop q).1
  takes q wait_pops = popped_attempt (wait_pop q).1
  takes q resumes_pop = popped_attempt (wait_pop (resume_cv q)).1
  takes q leaves_pop = popped_attempt (wait_pop (leave_cv q)).1
  takes q (timed_pops t) = popped_attempt (wait_pop_for q t).1
  takes q (resumes_timed_pop t) = popped_attempt (wait_pop_for (resume_cv q) t).1
  takes q (leaves_timed_pop t) = popped_attempt (wait_pop_for (leave_cv q) t).1
  takes q clears = q.queue
  takes q _ = []

  push_fifo :
      (q : ThreadSafeQueue A) (v : A) → (push q v).0.queue ≡ q.queue ++ if_returned v (push q v).1
  unfolding push
  push_fifo q v = ground (arith, append-nil q.queue)

  try_push_locked_fifo :
      (q : ThreadSafeQueue A) (v : A)
      → (try_push_locked q v).0.queue ≡ q.queue ++ if_pushed v (try_push_locked q v).1
  unfolding try_push_locked
  try_push_locked_fifo q v = ground (arith, append-nil q.queue)

  try_push_fifo :
      (q : ThreadSafeQueue A) (v : A)
      → (try_push q v).0.queue ≡ q.queue ++ if_pushed v (try_push q v).1
  unfolding try_push
  try_push_fifo q v = ground (arith, append-nil q.queue)

  wait_pop_fifo :
      (q : ThreadSafeQueue A) (xs : List A)
      → q.queue ≡ xs
      → xs ≡ popped_attempt (wait_pop q).1 ++ (wait_pop q).0.queue
  unfolding wait_pop
  wait_pop_fifo q [] e = ground arith
  wait_pop_fifo q (x ∷ xs) e = ground arith

  wait_pop_for_fifo :
      (q : ThreadSafeQueue A) (t : Bool) (xs : List A)
      → q.queue ≡ xs
      → xs ≡ popped_attempt (wait_pop_for q t).1 ++ (wait_pop_for q t).0.queue
  unfolding wait_pop_for
  wait_pop_for_fifo q t [] e = ground arith
  wait_pop_for_fifo q t (x ∷ xs) e = ground arith

  try_pop_fifo :
      (q : ThreadSafeQueue A) (xs : List A)
      → q.queue ≡ xs
      → xs ≡ popped (try_pop q).1 ++ (try_pop q).0.queue
  unfolding try_pop
  try_pop_fifo q [] e = ground arith
  try_pop_fifo q (x ∷ xs) e = ground arith

  -- One call: what was there and what it puts in, in this order, is what it takes out and what stays.
  call_fifo :
      (q : ThreadSafeQueue A) (c : Call A) → q.queue ++ puts q c ≡ takes q c ++ (call q c).queue
  unfolding call puts takes shut_down clear resume_cv resume_cv_full leave_cv leave_cv_full
  call_fifo q (try_pushes v) = sym (try_push_fifo q v)
  call_fifo q (late_try_pushes v) = sym (try_push_locked_fifo q v)
  call_fifo q (pushes v) = sym (push_fifo q v)
  call_fifo q (resumes_push v) = sym (push_fifo (resume_cv_full q) v)
  call_fifo q (leaves_push v) = sym (push_fifo (leave_cv_full q) v)
  call_fifo q try_pops = append-nil q.queue ∙ try_pop_fifo q q.queue refl
  call_fifo q wait_pops = append-nil q.queue ∙ wait_pop_fifo q q.queue refl
  call_fifo q resumes_pop = append-nil q.queue ∙ wait_pop_fifo (resume_cv q) q.queue refl
  call_fifo q leaves_pop = append-nil q.queue ∙ wait_pop_fifo (leave_cv q) q.queue refl
  call_fifo q (timed_pops t) = append-nil q.queue ∙ wait_pop_for_fifo q t q.queue refl
  call_fifo q (resumes_timed_pop t) =
      append-nil q.queue ∙ wait_pop_for_fifo (resume_cv q) t q.queue refl
  call_fifo q (leaves_timed_pop t) =
      append-nil q.queue ∙ wait_pop_for_fifo (leave_cv q) t q.queue refl
  call_fifo q shuts_down = append-nil q.queue
  call_fifo q clears = refl

  pub run : ThreadSafeQueue A → List (Call A) → ThreadSafeQueue A
  run q [] = q
  run q (c ∷ cs) = run (call q c) cs

  pub all_puts : ThreadSafeQueue A → List (Call A) → List A
  all_puts q [] = []
  all_puts q (c ∷ cs) = puts q c ++ all_puts (call q c) cs

  pub all_takes : ThreadSafeQueue A → List (Call A) → List A
  all_takes q [] = []
  all_takes q (c ∷ cs) = takes q c ++ all_takes (call q c) cs

  -- After any sequence of calls by any threads, the values that the pushes reported as accepted,
  -- in order and behind what was there at first, are the values that came out, in order, followed
  -- by what is still in the queue.
  pub run_fifo :
      (q : ThreadSafeQueue A) (cs : List (Call A))
      → q.queue ++ all_puts q cs ≡ all_takes q cs ++ (run q cs).queue
  unfolding run all_puts all_takes
  run_fifo q [] = append-nil q.queue
  run_fifo q (c ∷ cs) =
      sym (append_assoc q.queue (puts q c) (all_puts (call q c) cs))
      ∙ ap (λ l. l ++ all_puts (call q c) cs) (call_fifo q c)
      ∙ append_assoc (takes q c) (call q c).queue (all_puts (call q c) cs)
      ∙ ap (◌++◌ (takes q c)) (run_fifo (call q c) cs)
      ∙ sym (append_assoc (takes q c) (all_takes (call q c) cs) (run (call q c) cs).queue)

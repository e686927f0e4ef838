-- ===== src/Queue/Call.antt =====
-- A call on a ThreadSafeQueue as data, and what it does to the queue: the operations of
-- ThreadPoolBenchmark/ThreadSafeQueue.h, as called afresh, and as taken up again by a thread that
-- was woken, or left a wait with no notification.
use thread_pool_backtesting.Base.{Bool}
use thread_pool_backtesting.Queue.{
  ThreadSafeQueue, resume, leave, try_push_locked, try_push, push, try_pop, wait_pop, wait_pop_for,
  shut_down, clear,
}

pub data Call {ℓ} (A : Type ℓ) : Type ℓ where
  try_pushes : A → Call A
  -- the rest of a `tryPush` whose test of `_shutdown` lies in the past
  late_try_pushes : A → Call A
  pushes : A → Call A
  resumes_push : A → Call A
  leaves_push : A → Call A
  try_pops : Call A
  wait_pops : Call A
  resumes_pop : Call A
  leaves_pop : Call A
  timed_pops : (elapsed : Bool) → Call A
  resumes_timed_pop : (elapsed : Bool) → Call A
  leaves_timed_pop : (elapsed : Bool) → Call A
  shuts_down : Call A
  clears : Call A

module _ {ℓ} {A : Type ℓ} where
  -- A thread that comes out of a wait.
  unfoldable pub resume_cv : ThreadSafeQueue A → ThreadSafeQueue A
  unfolding resume
  resume_cv q = record q { cv = resume q.cv }

  unfoldable pub leave_cv : ThreadSafeQueue A → ThreadSafeQueue A
  unfolding leave
  leave_cv q = record q { cv = leave q.cv }

  unfoldable pub resume_cv_full : ThreadSafeQueue A → ThreadSafeQueue A
  unfolding resume
  resume_cv_full q = record q { cv_full = resume q.cv_full }

  unfoldable pub leave_cv_full : ThreadSafeQueue A → ThreadSafeQueue A
  unfolding leave
  leave_cv_full q = record q { cv_full = leave q.cv_full }

  unfoldable pub call : ThreadSafeQueue A → Call A → ThreadSafeQueue A
  call q (try_pushes v) = (try_push q v).0
  call q (late_try_pushes v) = (try_push_locked q v).0
  call q (pushes v) = (push q v).0
  call q (resumes_push v) = (push (resume_cv_full q) v).0
  call q (leaves_push v) = (push (leave_cv_full q) v).0
  call q try_pops = (try_pop q).0
  call q wait_pops = (wait_pop q).0
  call q resumes_pop = (wait_pop (resume_cv q)).0
  call q leaves_pop = (wait_pop (leave_cv q)).0
  call q (timed_pops elapsed) = (wait_pop_for q elapsed).0
  call q (resumes_timed_pop elapsed) = (wait_pop_for (resume_cv q) elapsed).0
  call q (leaves_timed_pop elapsed) = (wait_pop_for (leave_cv q) elapsed).0
  call q shuts_down = shut_down q
  call q clears = clear q

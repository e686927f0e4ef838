-- ===== src/Queue/RoundTrip.antt =====
-- What goes into the queue of ThreadPoolBenchmark/ThreadSafeQueue.h by push comes out by waitPop.
use thread_pool_backtesting.Base.{
  ℕ, zero, suc, ◌+◌, ◌<◌, ◌≤◌, ◌≡◌, ◌⊎◌, inl, inr, refl, sym, subst, ap, ◌∙◌, Bool, true, false,
  Option, some, List, [], ◌∷◌, ◌++◌, map, arith, length, length-append, replicate, size_mod,
}
use thread_pool_backtesting.Queue.{
  ThreadSafeQueue, Attempt, returns, has_space, emplace, pop_front, push, wait_pop, increment,
  decrement, wait_front,
}
use mathlib.Core.List.{append-nil, append_assoc}

module _ {ℓ} {A : Type ℓ} where
  -- One `push` after the other, with no other thread in between: the queue, and what each call gives.
  abbrev pub push_all : ThreadSafeQueue A → List A → ThreadSafeQueue A × List (Attempt Bool)
  push_all q [] = (q, [])
  push_all q (value ∷ values) =
      let (q1, r) = push q value in let (q2, rs) = push_all q1 values in (q2, r ∷ rs)

  abbrev pub wait_pop_all :
      (count : ℕ) → ThreadSafeQueue A → ThreadSafeQueue A × List (Attempt (Option A))
  wait_pop_all zero q = (q, [])
  wait_pop_all (suc count) q =
      let (q1, r) = wait_pop q in let (q2, rs) = wait_pop_all count q1 in (q2, r ∷ rs)

  -- An open queue with place for `more` further values.
  record HasRoom (q : ThreadSafeQueue A) (more : ℕ) : Type ℓ where
    pub is_open : q.shutdown ≡ false
    pub sized : q.size ≡ length q.queue
    pub countable : length q.queue + more < size_mod
    pub places : (q.max_size ≡ 0) ⊎ (length q.queue + more ≤ q.max_size)

  push-emplace :
      (q : ThreadSafeQueue A) (value : A) (more : ℕ)
      → HasRoom q (suc more)
      → push q value ≡ (emplace q value, returns true)
  unfolding push
  push-emplace q value more v =
      let space : has_space q ≡ true = ground (arith, v.places, v.is_open) in
      rw (space, v.is_open) refl

  emplace-HasRoom :
      (q : ThreadSafeQueue A) (value : A) (more : ℕ)
      → HasRoom q (suc more)
      → HasRoom (emplace q value) more
  unfolding emplace increment
  emplace-HasRoom q value more v =
      let len = length-append q.queue (value ∷ []) in
      record {
        is_open = v.is_open;
        sized = omega (arith, len, v.sized, v.countable);
        countable = omega (arith, len, v.countable);
        places = elim v.places [ inl free ↦ inl free | inr room ↦ inr (omega (arith, len)) ];
      }

  queue-emplace :
      (q : ThreadSafeQueue A) (value : A) → (emplace q value).queue ≡ q.queue ++ value ∷ []
  unfolding emplace
  queue-emplace q value = refl

  push_all-HasRoom :
      (values : List A) (q : ThreadSafeQueue A)
      → HasRoom q (length values)
      → HasRoom (push_all q values).0 0
        × ((push_all q values).0.queue ≡ q.queue ++ values)
        × ((push_all q values).1 ≡ replicate (length values) (returns true))
  push_all-HasRoom [] q v = (v, sym (append-nil q.queue), refl)
  push_all-HasRoom (value ∷ values) q v =
      let (room, contents, all) =
        push_all-HasRoom values (emplace q value) (emplace-HasRoom q value (length values) v) in
      rw (push-emplace q value (length values) v) (
        room,
        contents
            ∙ ap (λ xs. xs ++ values) (queue-emplace q value)
            ∙ append_assoc q.queue (value ∷ []) values,
        ap (λ rs. returns true ∷ rs) all,
      )

  pop-front :
      (q : ThreadSafeQueue A) (value : A) (rest : List A)
      → q.queue ≡ value ∷ rest
      → wait_pop q ≡ (pop_front q rest, returns (some value))
  unfolding wait_pop
  pop-front q value rest e = ap (wait_front q) e

  pop_front-HasRoom :
      (q : ThreadSafeQueue A) (value : A) (rest : List A)
      → q.queue ≡ value ∷ rest
      → HasRoom q 0
      → HasRoom (pop_front q rest) 0
  unfolding pop_front decrement
  pop_front-HasRoom q value rest e v =
      let len = ap length e in
      record {
        is_open = v.is_open;
        sized = omega (arith, len, v.sized, v.countable);
        countable = omega (arith, len, v.countable);
        places = elim v.places [ inl free ↦ inl free | inr room ↦ inr (omega (arith, len)) ];
      }

  queue-pop_front : (q : ThreadSafeQueue A) (rest : List A) → (pop_front q rest).queue ≡ rest
  unfolding pop_front
  queue-pop_front q rest = refl

  pop_all-HasRoom :
      (values : List A) (q : ThreadSafeQueue A)
      → q.queue ≡ values
      → HasRoom q 0
      → HasRoom (wait_pop_all (length values) q).0 0
        × ((wait_pop_all (length values) q).0.queue ≡ [])
        × ((wait_pop_all (length values) q).1 ≡ map (λ value. returns (some value)) values)
  pop_all-HasRoom [] q e v = (v, e, refl)
  pop_all-HasRoom (value ∷ values) q e v =
      let (room, empty, all) =
        pop_all-HasRoom values (pop_front q values) (queue-pop_front q values)
          (pop_front-HasRoom q value values e v) in
      subst
        (λ (r : ThreadSafeQueue A × Attempt (Option A)).
          HasRoom (wait_pop_all (length values) r.0).0 0
          × ((wait_pop_all (length values) r.0).0.queue ≡ [])
          × (r.1 ∷ (wait_pop_all (length values) r.0).1
              ≡ returns (some value) ∷ map (λ value. returns (some value)) values))
        (sym (pop-front q value values e)) (room, empty, ap (λ rs. returns (some value) ∷ rs) all)

  -- With no other thread in between: when values are pushed on an open queue whose size is that of
  -- its contents, with place for all of them (and fewer than 2^64 in all), every push is accepted,
  -- and as many calls of waitPop as there are values then give, in order, what was in the queue
  -- and the values; the queue is then empty, of size 0 and open.
  pub push-then-wait_pop :
      (q : ThreadSafeQueue A) (values : List A)
      → q.shutdown ≡ false
      → q.size ≡ length q.queue
      → length q.queue + length values < size_mod
      → (q.max_size ≡ 0) ⊎ (length q.queue + length values ≤ q.max_size)
      → let pushed = push_all q values in
        let popped = wait_pop_all (length (q.queue ++ values)) pushed.0 in
        (pushed.1 ≡ replicate (length values) (returns true))
        × (popped.1 ≡ map (λ value. returns (some value)) (q.queue ++ values))
        × (popped.0.queue ≡ [])
        × (popped.0.size ≡ 0)
        × (popped.0.shutdown ≡ false)
  push-then-wait_pop q values o s c p =
      let (room, contents, accepted) =
        push_all-HasRoom values q (record { is_open = o; sized = s; countable = c; places = p }) in
      let (room', empty, given) =
        pop_all-HasRoom (q.queue ++ values) (push_all q values).0 contents room in
      (accepted, given, empty, room'.sized ∙ ap length empty, room'.is_open)

-- ===== src/Runners/Polling/Tests.antt =====
-- HP_ThreadPool of ThreadPoolBenchmark/main.cpp over a pool with one place, which runs a task whenever its
-- caller yields: what is assumed of the pool can hold.
use thread_pool_backtesting.Base.{
  ℕ, ◌+◌, ◌<◌, ◌≡◌, refl, Bool, true, false, some, List, [], ◌∷◌, ◌++◌, arith, length, weigh,
  weigh-append,
}
use thread_pool_backtesting.Runners.Polling.{
  PollingPool, IsPollingPool, hp_thread_pool, post_all, post_until, poll_until,
}

record OnePlace : Type 0 where
  pub waits : List ℕ
  pub has_run : List ℕ

abbrev post : ℕ → List ℕ → List ℕ → OnePlace × Bool
post t [] r = (record { waits = t ∷ []; has_run = r }, true)
post t (u ∷ us) r = (record { waits = u ∷ us; has_run = r }, false)

abbrev go_on : List ℕ → List ℕ → OnePlace
go_on [] r = record { waits = []; has_run = r }
go_on (t ∷ ts) r = record { waits = ts; has_run = r ++ t ∷ [] }

abbrev is_empty : List ℕ → Bool
is_empty [] = true
is_empty (t ∷ ts) = false

abbrev one_place : PollingPool ℕ
one_place = record {
  State = OnePlace;
  construct = λ threads. record { waits = []; has_run = [] };
  start = λ s. s;
  post = λ t s. post t s.waits s.has_run;
  is_task_done = λ s. is_empty s.waits;
  stop = λ s. s;
  go_on = λ s. go_on s.waits s.has_run;
}

module _ (t : ℕ) (w : ℕ → ℕ) where
  post-weigh :
      (q r : List ℕ)
      → (post t q r).1 ≡ true
      → weigh w (post t q r).0.has_run + weigh w (post t q r).0.waits ≡ w t + weigh w r + weigh w q
  post-weigh [] r h = omega arith
  post-weigh (u ∷ us) r h = cc

go_on-weigh :
    (w : ℕ → ℕ) (q r : List ℕ)
    → weigh w (go_on q r).has_run + weigh w (go_on q r).waits ≡ weigh w r + weigh w q
go_on-weigh w [] r = omega arith
go_on-weigh w (t ∷ ts) r = omega (arith, weigh-append w r (t ∷ []))

post-refuses :
    (t : ℕ) (q r : List ℕ)
    → (post t q r).1 ≡ false
    → (post t q r).0 ≡ record { waits = q; has_run = r }
post-refuses t [] r h = cc
post-refuses t (u ∷ us) r h = refl

post-full : (t : ℕ) (q r : List ℕ) → (post t q r).1 ≡ false → length (go_on q r).waits < length q
post-full t [] r h = cc
post-full t (u ∷ us) r h = omega arith

go_on-less : (q r : List ℕ) → is_empty q ≡ false → length (go_on q r).waits < length q
go_on-less [] r h = cc
go_on-less (u ∷ us) r h = omega arith

empty-waits : (q : List ℕ) → is_empty q ≡ true → q ≡ []
empty-waits [] h = refl
empty-waits (u ∷ us) h = cc

abbrev one_place-IsPollingPool : IsPollingPool one_place
one_place-IsPollingPool = record {
  ran = λ s. s.has_run;
  waiting = λ s. s.waits;
  load = λ s. length s.waits;
  fresh_ran = λ n. refl;
  fresh_waiting = λ n. refl;
  accepts = λ t s w h. post-weigh t w s.waits s.has_run h;
  refuses = λ t s h. post-refuses t s.waits s.has_run h;
  keeps = λ s w. go_on-weigh w s.waits s.has_run;
  full = λ t s h. post-full t s.waits s.has_run h;
  unfinished = λ s h. go_on-less s.waits s.has_run h;
  finished = λ s h. empty-waits s.waits h;
  stops = λ s. refl;
}

-- The second task is refused once.
three_posted :
    hp_thread_pool one_place 3 24 (5 ∷ 6 ∷ 7 ∷ [])
    ≡ some (record { waits = []; has_run = 5 ∷ 6 ∷ 7 ∷ [] })
unfolding hp_thread_pool post_all post_until poll_until
three_posted = refl

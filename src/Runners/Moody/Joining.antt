-- ===== src/Runners/Moody/Joining.antt =====
-- What the main thread of moody_ConcurrentQueue_ThreadPool of ThreadPoolBenchmark/main.cpp knows behind its
-- wait for the counter, and which workers it has joined.
use thread_pool_backtesting.Base.{
  ℕ, ◌<◌, ◌≡◌, refl, ap, ◌∙◌, dec_lt, Bool, true, false, some, [], ◌∷◌, arith,
}
use thread_pool_backtesting.Runners.Moody.{
  MoodyPc, testing_done, testing_remaining, polling, executing, subtracting, left_loop, MainPc,
  enqueuing, awaiting, setting_done, joining_from, back, Moody, moody_main,
}

module _ {T : Type 0} where
  -- Whether the main thread has seen the counter at 0.
  abbrev pub is_past : MainPc T → Bool
  is_past (enqueuing ts) = false
  is_past awaiting = false
  is_past setting_done = true
  is_past (joining_from k) = true
  is_past back = true

  -- How many of the `n` workers have been joined.
  abbrev pub joined : ℕ → MainPc T → ℕ
  joined n (enqueuing ts) = 0
  joined n awaiting = 0
  joined n setting_done = 0
  joined n (joining_from k) = k
  joined n back = n

  join-same :
      {s' : Moody T} (n : ℕ) (s : Moody T) (k : ℕ) (pc : MoodyPc T)
      → s.workers k ≡ pc
      → s.main_pc ≡ joining_from k
      → moody_main n s ≡ some s'
      → s'.remaining_tasks ≡ s.remaining_tasks × s'.workers ≡ s.workers
  unfolding moody_main
  join-same n s k testing_done at e h = ground arith
  join-same n s k testing_remaining at e h = ground arith
  join-same n s k polling at e h = ground arith
  join-same n s k (executing t) at e h = ground arith
  join-same n s k subtracting at e h = ground arith
  join-same n s k left_loop at e h = ground arith

  pub main-spent :
      {s' : Moody T} (n : ℕ) (s : Moody T) (pc : MainPc T)
      → s.main_pc ≡ pc
      → (is_past pc ≡ true → s.remaining_tasks ≡ 0)
      → moody_main n s ≡ some s'
      → is_past s'.main_pc ≡ true
      → s'.remaining_tasks ≡ 0
  unfolding moody_main
  main-spent n s (enqueuing []) e v h past = ground arith
  main-spent n s (enqueuing (t ∷ ts)) e v h past = ground arith
  main-spent n s awaiting e v h past = ground arith
  main-spent n s setting_done e v h past = ground (arith, v refl)
  main-spent n s (joining_from k) e v h past = (join-same n s k (s.workers k) refl e h).0 ∙ v refl
  main-spent n s back e v h past = ground arith

  join-ended :
      {s' : Moody T} (n : ℕ) (s : Moody T) (k : ℕ) (pc : MoodyPc T)
      → s.workers k ≡ pc
      → s.main_pc ≡ joining_from k
      → moody_main n s ≡ some s'
      → (j : ℕ) → j < joined n s'.main_pc
      → ¬ j < k
      → s'.workers j ≡ left_loop
  unfolding moody_main
  join-ended n s k testing_done at e h j below high = ground arith
  join-ended n s k testing_remaining at e h j below high = ground arith
  join-ended n s k polling at e h j below high = ground arith
  join-ended n s k (executing t) at e h j below high = ground arith
  join-ended n s k subtracting at e h j below high = ground arith
  join-ended n s k left_loop at e h j below high = ground arith

  pub main-workers :
      {s' : Moody T} (n : ℕ) (s : Moody T) (pc : MainPc T)
      → s.main_pc ≡ pc
      → moody_main n s ≡ some s'
      → s'.workers ≡ s.workers
  unfolding moody_main
  main-workers n s (enqueuing []) e h = ground arith
  main-workers n s (enqueuing (t ∷ ts)) e h = ground arith
  main-workers n s awaiting e h = ground arith
  main-workers n s setting_done e h = ground arith
  main-workers n s (joining_from k) e h = (join-same n s k (s.workers k) refl e h).1
  main-workers n s back e h = ground arith

  pub main-ended :
      {s' : Moody T} (n : ℕ) (s : Moody T) (pc : MainPc T)
      → s.main_pc ≡ pc
      → ((j : ℕ) → j < joined n pc → s.workers j ≡ left_loop)
      → moody_main n s ≡ some s'
      → (j : ℕ) → j < joined n s'.main_pc
      → s'.workers j ≡ left_loop
  unfolding moody_main
  main-ended n s (enqueuing []) e v h j below = ground arith
  main-ended n s (enqueuing (t ∷ ts)) e v h j below = ground arith
  main-ended n s awaiting e v h j below = ground arith
  main-ended n s setting_done e v h j below = ground arith
  main-ended n s (joining_from k) e v h j below = elim (dec_lt j k) [
    | yes lower ↦ ap (λ ws. ws j) (main-workers n s (joining_from k) e h) ∙ v j lower
    | no high ↦ join-ended n s k (s.workers k) refl e h j below high
  ]
  main-ended n s back e v h j below = ground arith

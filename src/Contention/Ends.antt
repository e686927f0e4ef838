-- ===== src/Contention/Ends.antt =====
-- How long a run of a contention test of ThreadPoolBenchmark/HighContention.h can be, apart from attempts that
-- find the flag taken.
use thread_pool_backtesting.Base.{
  ℕ, zero, suc, ◌+◌, ◌*◌, ◌≤◌, ◌<◌, ◌≡◌, refl, ◌⊎◌, inl, inr, update, true, false, Bool-cases, some,
  arith, tally, tally-update, tally_constant, score-le-tally, find_scoring, dec_lt,
}
use thread_pool_backtesting.Contention.{
  Waiting, TaskPc, trying, critical, finished, Contended, uncontended, next_backoff, move, Reach,
  start, next,
}
use thread_pool_backtesting.Contention.Flag.{inside, Reach-Excluded}

-- Task `i` tries and finds the flag taken.
abbrev pub Fails : Contended → ℕ → Type 0
Fails s i = (s.flag ≡ true) × (backoff : ℕ) × (s.tasks i ≡ trying backoff)

-- The states that `n` tasks can bring about, with the number of their pieces but for such attempts.
pub data Made (waiting : Waiting) (n : ℕ) : ℕ → Contended → Type 0 where
  fresh : Made waiting n zero uncontended
  goes :
      {made : ℕ} {s s' : Contended} (i : ℕ)
      → Made waiting n made s
      → i < n
      → ¬ Fails s i
      → move waiting s i ≡ some s'
      → Made waiting n (suc made) s'
  fails :
      {made : ℕ} {s s' : Contended} (i : ℕ)
      → Made waiting n made s
      → i < n
      → Fails s i
      → move waiting s i ≡ some s'
      → Made waiting n made s'

Made-Reach :
    {waiting : Waiting} {n made : ℕ} {s : Contended} → Made waiting n made s → Reach waiting n s
Made-Reach fresh = start
Made-Reach (goes i m lt on h) = next i (Made-Reach m) lt h
Made-Reach (fails i m lt failed h) = next i (Made-Reach m) lt h

-- How many pieces a task has before it once it gets in.
abbrev pieces : TaskPc → ℕ
pieces (trying backoff) = 2
pieces critical = 1
pieces finished = 0

goes-pieces :
    {s' : Contended} (waiting : Waiting) (n : ℕ) (s : Contended) (i : ℕ) (pc : TaskPc)
    → s.tasks i ≡ pc
    → i < n
    → ¬ Fails s i
    → move waiting s i ≡ some s'
    → tally pieces s.tasks n ≡ suc (tally pieces s'.tasks n)
unfolding move
goes-pieces waiting n s i (trying b) e lt on h = elim (Bool-cases s.flag) [
  | inl held ↦ absurd (on (held, b, e))
  | inr free ↦ ground (arith, tally-update pieces s.tasks n i critical)
]
goes-pieces waiting n s i critical e lt on h =
    ground (arith, tally-update pieces s.tasks n i finished)
goes-pieces waiting n s i finished e lt on h = ground arith

fails-pieces :
    {s' : Contended} (waiting : Waiting) (n : ℕ) (s : Contended) (i : ℕ) (b : ℕ)
    → s.tasks i ≡ trying b
    → s.flag ≡ true
    → i < n
    → move waiting s i ≡ some s'
    → tally pieces s.tasks n ≡ tally pieces s'.tasks n
unfolding move
fails-pieces waiting n s i b e held lt h =
    ground (arith, tally-update pieces s.tasks n i (trying (next_backoff waiting b)))

Made-pieces :
    {waiting : Waiting} {n made : ℕ} {s : Contended}
    → Made waiting n made s
    → made + tally pieces s.tasks n ≡ 2 * n
Made-pieces {n = n} fresh = omega (arith, tally_constant pieces (trying 1) n)
Made-pieces {waiting} {n} (goes {s = s} i m lt on h) =
    omega (arith, Made-pieces m, goes-pieces waiting n s i (s.tasks i) refl lt on h)
Made-pieces {waiting} {n} (fails {s = s} i m lt (held, b, e) h) =
    omega (arith, Made-pieces m, fails-pieces waiting n s i b e held lt h)

no_pieces : (pc : TaskPc) → pieces pc ≡ 0 → pc ≡ finished
no_pieces (trying b) h = absurd (omega arith)
no_pieces critical h = absurd (omega arith)
no_pieces finished h = refl

is_inside : (pc : TaskPc) → 0 < inside pc → pc ≡ critical
is_inside (trying b) h = absurd (omega arith)
is_inside critical h = refl
is_inside finished h = absurd (omega arith)

abbrev GoesOn : Waiting → ℕ → Contended → Type 0
GoesOn waiting n s =
    (i : ℕ) × (s' : Contended) × (i < n) × (¬ Fails s i) × (move waiting s i ≡ some s')

leave-GoesOn :
    (waiting : Waiting) (n : ℕ) (s : Contended) (i : ℕ)
    → i < n
    → s.tasks i ≡ critical
    → GoesOn waiting n s
unfolding move
leave-GoesOn waiting n s i lt e = (
  i,
  record s { flag = false; tasks = update s.tasks i finished },
  lt,
  λ (held, b, f). cc,
  rw e refl,
)

enter-GoesOn :
    (waiting : Waiting) (n : ℕ) (s : Contended) (i : ℕ) (pc : TaskPc)
    → i < n
    → s.flag ≡ false
    → s.tasks i ≡ pc
    → 0 < pieces pc
    → GoesOn waiting n s
unfolding move
enter-GoesOn waiting n s i (trying b) lt free e h = (
  i,
  record s { flag = true; tasks = update s.tasks i critical },
  lt,
  λ (held, b, f). cc,
  rw (e, free) refl,
)
enter-GoesOn waiting n s i critical lt free e h = leave-GoesOn waiting n s i lt e
enter-GoesOn waiting n s i finished lt free e h = absurd (omega arith)

-- However the `n` tasks are interleaved and whichever way they wait: apart from attempts that find
-- the flag taken, at most two pieces are made for each task; and until all tasks are done, some
-- piece can be made that is no such attempt.
pub contention_ends :
    {waiting : Waiting} {n made : ℕ} {s : Contended}
    → Made waiting n made s
    → (made ≤ 2 * n)
      × (((i : ℕ) → i < n → s.tasks i ≡ finished)
          ⊎ ((i : ℕ) × (s' : Contended) × (i < n) × (¬ Fails s i) × (move waiting s i ≡ some s')))
contention_ends {waiting} {n} {s = s} m = (
  omega (arith, Made-pieces m),
  elim (Bool-cases s.flag) [
    | inl held ↦
        let v = Reach-Excluded (Made-Reach m) in
        let (i, lt, h) = find_scoring inside s.tasks n (ground (arith, v.counted)) in
        inr (leave-GoesOn waiting n s i lt (is_inside (s.tasks i) h))
    | inr free ↦ elim (dec_lt 0 (tally pieces s.tasks n)) [
      | yes h ↦
          let (i, lt, k) = find_scoring pieces s.tasks n h in
          inr (enter-GoesOn waiting n s i (s.tasks i) lt free refl k)
      | no h ↦
          inl (λ i lt. no_pieces (s.tasks i) (omega (arith, score-le-tally pieces s.tasks n i lt)))
    ]
  ],
)

-- ===== src/Contention/Flag.antt =====
-- The flag of the three contention tests of ThreadPoolBenchmark/HighContention.h.
use thread_pool_backtesting.Base.{
  ℕ, ◌≤◌, ◌<◌, ◌≡◌, refl, subst, inl, inr, update, update-all, Bool, true, false, Bool-cases, some,
  arith, tally, tally-update, tally_none, score-le-tally, ℕ_discrete,
}
use thread_pool_backtesting.Contention.{
  Waiting, yields, spins, backs_off, TaskPc, trying, critical, finished, Contended, next_backoff,
  move, Reach, start, next,
}

abbrev pub inside : TaskPc → ℕ
inside (trying backoff) = 0
inside critical = 1
inside finished = 0

abbrev taken : Bool → ℕ
taken true = 1
taken false = 0

taken-le : (b : Bool) → taken b ≤ 1
taken-le true = omega arith
taken-le false = omega arith

-- A backoff is between 1 and 1024.
abbrev pub IsModest : TaskPc → Type 0
IsModest (trying backoff) = (1 ≤ backoff) × (backoff ≤ 1024)
IsModest critical = Unit {0}
IsModest finished = Unit {0}

pub record Excluded (n : ℕ) (s : Contended) : Type 0 where
  pub counted : tally inside s.tasks n ≡ taken s.flag
  pub modest : (i : ℕ) → IsModest (s.tasks i)

next_backoff-modest :
    (waiting : Waiting) (b : ℕ)
    → 1 ≤ b
    → b ≤ 1024
    → (1 ≤ next_backoff waiting b) × (next_backoff waiting b ≤ 1024)
next_backoff-modest yields b l u = (l, u)
next_backoff-modest spins b l u = (l, u)
next_backoff-modest backs_off b l u = (omega arith, omega arith)

move-Excluded :
    {s' : Contended} (waiting : Waiting) (n : ℕ) (s : Contended) (i : ℕ) (pc : TaskPc)
    → s.tasks i ≡ pc
    → i < n
    → Excluded n s
    → IsModest pc
    → move waiting s i ≡ some s'
    → Excluded n s'
unfolding move
move-Excluded {s'} waiting n s i (trying b) e lt v m h = elim (Bool-cases s.flag) [
  | inl held ↦
      let waits = trying (next_backoff waiting b) in
      let same : record s { tasks = update s.tasks i waits } ≡ s' = ground arith in
      subst (Excluded n) same (record {
        counted = ground (arith, v.counted, tally-update inside s.tasks n i waits);
        modest =
            update-all IsModest s.tasks i waits v.modest (next_backoff-modest waiting b m.0 m.1);
      })
  | inr free ↦
      let same : record s { flag = true; tasks = update s.tasks i critical } ≡ s' = ground arith in
      subst (Excluded n) same (record {
        counted = ground (arith, v.counted, tally-update inside s.tasks n i critical);
        modest = update-all IsModest s.tasks i critical v.modest tt;
      })
]
move-Excluded {s'} waiting n s i critical e lt v m h =
    let same : record s { flag = false; tasks = update s.tasks i finished } ≡ s' = ground arith in
    subst (Excluded n) same (record {
      counted =
          ground (arith, v.counted, tally-update inside s.tasks n i finished, taken-le s.flag);
      modest = update-all IsModest s.tasks i finished v.modest tt;
    })
move-Excluded waiting n s i finished e lt v m h = ground arith

pub Reach-Excluded : {waiting : Waiting} {n : ℕ} {s : Contended} → Reach waiting n s → Excluded n s
Reach-Excluded {n = n} start = record {
  counted = tally_none inside (λ _. trying 1) n (λ _ _. refl);
  modest = λ i. (omega arith, omega arith);
}
Reach-Excluded {waiting} {n} (next {s = s} i r lt h) =
    let v = Reach-Excluded r in move-Excluded waiting n s i (s.tasks i) refl lt v (v.modest i) h

-- In every state that the tasks can bring about, whichever way they wait: while a task is inside
-- its critical section the flag is taken, no other task is inside its own, and each task that
-- still tries has a backoff between 1 and 1024.
pub mutual_exclusion :
    {waiting : Waiting} {n : ℕ} {s : Contended} (i j : ℕ)
    → Reach waiting n s
    → i < n
    → j < n
    → s.tasks i ≡ critical
    → (s.flag ≡ true) × (s.tasks j ≡ critical → i ≡ j) × ((k : ℕ) → IsModest (s.tasks k))
mutual_exclusion {n = n} {s} i j r lt lt' e = (
  ground (arith, v.counted, score-le-tally inside s.tasks n i lt),
  λ f. elim (ℕ_discrete i j) [
    | yes same ↦ same
    | no apart ↦ absurd (
        ground (
          arith,
          v.counted,
          taken-le s.flag,
          tally-update inside s.tasks n i finished,
          score-le-tally inside (update s.tasks i finished) n j,
        ))
  ],
  v.modest,
)
  where
    v : Excluded n s
    v = Reach-Excluded r

-- ===== src/Base/Family.antt =====
-- A value for each thread: change of one thread's value, and a score added up over the threads below
-- a bound.
use Prim.Native.Nat.{ℕ, zero, suc, ◌+◌, ◌*◌, ◌≤◌, ◌<◌}
use mathlib.Core.Path.{◌≡◌, refl}
use mathlib.Core.Logic.{ite}
use native.Mathlib.Decide.{dec_lt, ℕ_discrete}
use native.Mathlib.Nat.{mul-suc, suc-mul}
use native.Mathlib.Omega.{arith}

-- Thread `i` gets the value `a`.
abbrev pub update {ℓ} : {V : Type ℓ} → (ℕ → V) → ℕ → V → (ℕ → V)
update values thread v other = ite (ℕ_discrete thread other) v (values other)

module _ {ℓ} {V : Type ℓ} where
  -- What holds of each value, and of the new one, holds after the change.
  pub update-all {κ} :
      (P : V → Type κ) (values : ℕ → V) (thread : ℕ) (v : V)
      → ((other : ℕ) → P (values other))
      → P v
      → (other : ℕ) → P (update values thread v other)
  update-all P values thread v each new other =
      elim (ℕ_discrete thread other) as (λ r. P (ite r v (values other))) [
        | yes same ↦ new
        | no apart ↦ each other
      ]

  -- The threads below `bound`, the last first.
  pub tally : (score : V → ℕ) → (values : ℕ → V) → (bound : ℕ) → ℕ
  tally score values zero = 0
  tally score values (suc last) = score (values last) + tally score values last

  -- A thread beyond the bound does not count; one below it changes the sum by what its score changes.
  pub tally_constant :
      (score : V → ℕ) (v : V) (bound : ℕ) → tally score (λ _. v) bound ≡ bound * score v
  unfolding tally
  tally_constant score v zero = omega arith
  tally_constant score v (suc last) =
      let e : suc last * score v ≡ last * score v + score v = suc-mul last (score v) in
      omega (arith, tally_constant score v last, e)

  tally_shift :
      (score : V → ℕ) (values : ℕ → V) (thread : ℕ) (v : V) (bound : ℕ)
      → (thread < bound
          → score v + tally score values bound
            ≡ score (values thread) + tally score (update values thread v) bound)
        × (bound ≤ thread → tally score values bound ≡ tally score (update values thread v) bound)
  unfolding tally
  tally_shift score values thread v zero = (λ h. absurd (omega arith), λ h. refl)
  tally_shift score values thread v (suc last) =
      let ih = tally_shift score values thread v last in
      (λ h. ground (arith, ih.0, ih.1), λ h. ground (arith, ih.1))

  pub tally-update :
      (score : V → ℕ) (values : ℕ → V) (bound thread : ℕ) (v : V)
      → thread < bound
      → tally score (update values thread v) bound + score (values thread)
        ≡ tally score values bound + score v
  tally-update score values bound thread v h =
      omega (arith, (tally_shift score values thread v bound).0 h)

  pub tally_none :
      (score : V → ℕ) (values : ℕ → V) (bound : ℕ)
      → ((thread : ℕ) → thread < bound → score (values thread) ≡ 0)
      → tally score values bound ≡ 0
  unfolding tally
  tally_none score values zero none_below = refl
  tally_none score values (suc last) none_below = omega (
    arith,
    none_below last (omega arith),
    tally_none score values last (λ thread h. none_below thread (omega arith)),
  )

  pub score-le-tally :
      (score : V → ℕ) (values : ℕ → V) (bound thread : ℕ)
      → thread < bound
      → score (values thread) ≤ tally score values bound
  unfolding tally
  score-le-tally score values zero thread h = absurd (omega arith)
  score-le-tally score values (suc last) thread h = elim (dec_lt thread last) [
    | yes lower ↦ omega (arith, score-le-tally score values last thread lower)
    | no top ↦ ground arith
  ]

  pub tally-le :
      (score : V → ℕ) (values : ℕ → V) (bound : ℕ)
      → ((v : V) → score v ≤ 1)
      → tally score values bound ≤ bound
  unfolding tally
  tally-le score values zero at_most_one = omega arith
  tally-le score values (suc last) at_most_one =
      omega (arith, at_most_one (values last), tally-le score values last at_most_one)

  pub find_scoring :
      (score : V → ℕ) (values : ℕ → V) (bound : ℕ)
      → 0 < tally score values bound
      → (thread : ℕ) × (thread < bound) × (0 < score (values thread))
  unfolding tally
  find_scoring score values zero some_score = absurd (omega arith)
  find_scoring score values (suc last) some_score = elim (dec_lt 0 (score (values last))) [
    | yes scores ↦ (last, omega arith, scores)
    | no nothing ↦
        let (thread, lower, scores) = find_scoring score values last (omega arith) in
        (thread, omega arith, scores)
  ]

  -- What adds up to more than 0 has a part that is.
  pub some_of_tally :
      (score : V → ℕ) (values : ℕ → V) (bound : ℕ)
      → 0 < tally score values bound
      → (thread : ℕ) × (thread < bound) × (0 < score (values thread))
  unfolding tally
  some_of_tally score values zero h = absurd (omega arith)
  some_of_tally score values (suc last) h = elim (dec_lt 0 (score (values last))) [
    | yes here ↦ (last, omega arith, here)
    | no idle ↦
        let (thread, lt, busy) = some_of_tally score values last (omega arith) in
        (thread, omega (arith, lt), busy)
  ]

  pub tally_mono :
      (score score' : V → ℕ) (extra : ℕ) (values : ℕ → V) (bound : ℕ)
      → ((v : V) → score v ≤ score' v + extra)
      → tally score values bound ≤ tally score' values bound + extra * bound
  unfolding tally
  tally_mono score score' extra values zero h = omega arith
  tally_mono score score' extra values (suc last) h =
      let e : extra * suc last ≡ extra * last + extra = mul-suc extra last in
      omega (arith, e, h (values last), tally_mono score score' extra values last h)

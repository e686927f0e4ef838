-- ===== src/Base/Permutations.antt =====
-- Lists that weigh the same under every weight are permutations of each other.
use mathlib.Core.Path.{◌≡◌, refl, sym, subst, ap}
use mathlib.Core.Logic.{◌⊎◌, inl, inr}
use mathlib.Core.List.{List, [], ◌∷◌, ◌++◌, Perm, perm_middle}
use mathlib.Core.List.Perm
use Prim.Native.Nat.{ℕ, ◌<◌}
use native.Mathlib.Omega.{arith}
use thread_pool_backtesting.Base.Lists.{weigh, weigh-append}

abbrev bit {ℓ} : {P : Type ℓ} → Dec P → ℕ
bit (yes _) = 1
bit (no _) = 0

bit-cases {ℓ} : {P : Type ℓ} (d : Dec P) → (P × (bit d ≡ 1)) ⊎ ((¬ P) × (bit d ≡ 0))
bit-cases (yes holds) = inl (holds, refl)
bit-cases (no fails) = inr (fails, refl)

module _ {ℓ} {A : Type ℓ} (dec : (x y : A) → Dec (x ≡ y)) where
  split_at :
      (a : A) (xs : List A)
      → 0 < weigh (λ x. bit (dec a x)) xs
      → (before : List A) × (after : List A) × (xs ≡ before ++ a ∷ after)
  split_at a [] h = absurd (omega arith)
  split_at a (x ∷ xs) h = elim (bit-cases (dec a x)) [
    | inl (same, one) ↦ ([], xs, ap (λ z. z ∷ xs) (sym same))
    | inr (apart, nought) ↦
        let (before, after, e) = split_at a xs (omega (arith, nought)) in
        (x ∷ before, after, ap (λ zs. x ∷ zs) e)
  ]

  pub weigh-Perm : (xs ys : List A) → ((w : A → ℕ) → weigh w xs ≡ weigh w ys) → Perm xs ys
  weigh-Perm [] [] h = Perm.refl []
  weigh-Perm [] (y ∷ ys) h = absurd (omega (arith, h (λ _. 1)))
  weigh-Perm (x ∷ xs) ys h = elim (bit-cases (dec x x)) [
    | inr (apart, nought) ↦ absurd (apart refl)
    | inl (same, one) ↦
        let (before, after, e) = split_at x ys (omega (arith, one, h (λ y. bit (dec x y)))) in
        let rest = weigh-Perm xs (before ++ after) (λ w. omega (
          arith,
          h w,
          ap (weigh w) e,
          weigh-append w before (x ∷ after),
          weigh-append w before after,
        )) in
        subst (Perm (x ∷ xs)) (sym e)
          (Perm.trans (Perm.cons x rest) (Perm.symm (perm_middle before after)))
  ]

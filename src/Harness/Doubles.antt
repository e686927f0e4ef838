-- ===== src/Harness/Doubles.antt =====
-- What ThreadPoolBenchmark/Helpers.h and the test headers use of `double`, and std::min and std::max over it.
use Prim.Native.Char.{Char}
use thread_pool_backtesting.Base.{
  ℕ, Bool, true, false, ◌≡◌, List, [], ◌∷◌, Bool-cases, inl, inr, if◌then◌else◌,
}

pub record Double (D : Type 0) : Type 0 where
  pub of_nat : ℕ → D
  pub plus : D → D → D
  pub minus : D → D → D
  pub times : D → D → D
  pub over : D → D → D
  pub sqrt : D → D
  pub log : D → D
  -- `<` and `>=`, both false at a NaN
  pub less : D → D → Bool
  pub at_least : D → D → Bool
  -- `numeric_limits<double>::max()`
  pub max_value : D
  -- the text under `std::fixed` and `std::setprecision`
  pub fixed : (precision : ℕ) → D → List Char
  -- the text of `static_cast<int>(std::round(x))`
  pub rounded : D → List Char

module _ {D : Type 0} (d : Double D) where
  -- `std::min(a, b)` is `(b < a) ? b : a`, and `std::max(a, b)` is `(a < b) ? b : a`.
  abbrev pub min_double : D → D → D
  min_double a b = if d.less b a then b else a

  abbrev pub max_double : D → D → D
  max_double a b = if d.less a b then b else a

  -- A sum, from `sum` on and from left to right.
  abbrev pub add_all : D → List D → D
  add_all sum [] = sum
  add_all sum (x ∷ xs) = add_all (d.plus sum x) xs

-- The order of the doubles that are no NaN.
pub record IsOrdered {D : Type 0} (d : Double D) : Type 0 where
  pub irreflexive : (a : D) → d.less a a ≡ false
  pub transitive : (a b c : D) → d.less a b ≡ true → d.less b c ≡ true → d.less a c ≡ true
  -- What is not less is at least: with `a < c`, each `b` is above `a` or below `c`.
  pub comparable : (a b c : D) → d.less a c ≡ true → d.less a b ≡ false → d.less b c ≡ true

module _ {D : Type 0} (d : Double D) (law : IsOrdered d) where
  pub asymmetric : (a b : D) → d.less a b ≡ true → d.less b a ≡ false
  asymmetric a b h = elim (Bool-cases (d.less b a)) [
    | inr not_above ↦ not_above
    | inl above ↦ let same = law.transitive a b a h above in let never = law.irreflexive a in cc
  ]

  pub none_between : (a b c : D) → d.less a b ≡ false → d.less b c ≡ false → d.less a c ≡ false
  none_between a b c ab bc = elim (Bool-cases (d.less a c)) [
    | inr h ↦ h
    | inl h ↦ let above = law.comparable a b c h ab in cc
  ]

  pub min_double-least :
      (a b : D) → (d.less a (min_double d a b) ≡ false) × (d.less b (min_double d a b) ≡ false)
  min_double-least a b = elim (Bool-cases (d.less b a)) [
    | inl below ↦ rw below (asymmetric b a below, law.irreflexive b)
    | inr not_below ↦ rw not_below (law.irreflexive a, not_below)
  ]

  pub max_double-greatest :
      (a b : D) → (d.less (max_double d a b) a ≡ false) × (d.less (max_double d a b) b ≡ false)
  max_double-greatest a b = elim (Bool-cases (d.less a b)) [
    | inl above ↦ rw above (asymmetric a b above, law.irreflexive b)
    | inr not_above ↦ rw not_above (law.irreflexive a, not_above)
  ]

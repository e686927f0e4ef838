-- ===== src/Harness/Summary/Layout.antt =====
-- The columns of the tables of ThreadPoolBenchmark/Helpers.h: every text fits its column.
use Prim.Native.Char.{Char}
use thread_pool_backtesting.Base.{
  ℕ, zero, suc, ◌-◌, ◌≤◌, ◌≡◌, refl, subst, ap, some, List, [], ◌∷◌, map, arith, length,
  length-append, length-replicate, weigh, get_elem?,
}
use thread_pool_backtesting.Ranges.Chunks.{gather, AllBelow}
use thread_pool_backtesting.Ranges.{get_elem?-some}
use thread_pool_backtesting.Harness.Summary.{pad_right, pad_left, blanks, lay_out, widen}

-- Each text has a column that is wide enough, and each column a text.
abbrev pub Fitting : List ℕ → List (List Char) → Type 0
Fitting [] [] = Unit {0}
Fitting (w ∷ widths) (cell ∷ cells) = (length cell ≤ w) × Fitting widths cells
Fitting _ _ = ⊥

abbrev pub IsPad : (ℕ → List Char → List Char) → Type 0
IsPad pad = (w : ℕ) (text : List Char) → length text ≤ w → length (pad w text) ≡ w

pub pad_right-IsPad : IsPad pad_right
pad_right-IsPad w text h = omega (
  arith,
  length-append text (blanks (w - length text)),
  length-replicate {A = Char} (w - length text) " ",
)

pub pad_left-IsPad : IsPad pad_left
pad_left-IsPad w text h = omega (
  arith,
  length-append (blanks (w - length text)) text,
  length-replicate {A = Char} (w - length text) " ",
)

-- The width of a row of columns.
abbrev pub total_width : List ℕ → ℕ
total_width widths = weigh (λ w. w) widths

pub length-lay_out :
    (pad : ℕ → List Char → List Char) (widths : List ℕ) (cells : List (List Char))
    → IsPad pad
    → Fitting widths cells
    → length (lay_out pad widths cells) ≡ total_width widths
unfolding lay_out
length-lay_out pad [] [] p h = refl
length-lay_out pad [] (c ∷ cells) p h = absurd h
length-lay_out pad (w ∷ widths) [] p h = absurd h
length-lay_out pad (w ∷ widths) (c ∷ cells) p h = omega (
  arith,
  length-append (pad w c) (lay_out pad widths cells),
  p w c h.0,
  length-lay_out pad widths cells p h.1,
)

pub Fitting-self : (cells : List (List Char)) → Fitting (map (λ c. length c) cells) cells
Fitting-self [] = tt
Fitting-self (c ∷ cells) = (omega arith, Fitting-self cells)

pub Fitting-wider :
    (widths : List ℕ) (cells : List (List Char))
    → Fitting widths cells
    → Fitting (map suc widths) cells
Fitting-wider [] [] h = tt
Fitting-wider [] (c ∷ cells) h = absurd h
Fitting-wider (w ∷ widths) [] h = absurd h
Fitting-wider (w ∷ widths) (c ∷ cells) h = (omega (arith, h.0), Fitting-wider widths cells h.1)

-- What fits goes on fitting, and what a column was widened for fits.
pub Fitting-widen :
    (widths : List ℕ) (cells other : List (List Char))
    → Fitting widths cells
    → Fitting (widen widths other) cells
Fitting-widen [] [] other h = tt
Fitting-widen [] (c ∷ cells) other h = absurd h
Fitting-widen (w ∷ widths) [] other h = absurd h
Fitting-widen (w ∷ widths) (c ∷ cells) [] h = h
Fitting-widen (w ∷ widths) (c ∷ cells) (o ∷ other) h =
    (omega (arith, h.0), Fitting-widen widths cells other h.1)

pub Fitting-widened :
    (widths : List ℕ) (cells : List (List Char))
    → length cells ≡ length widths
    → Fitting (widen widths cells) cells
Fitting-widened [] [] e = tt
Fitting-widened [] (c ∷ cells) e = absurd (omega arith)
Fitting-widened (w ∷ widths) [] e = absurd (omega arith)
Fitting-widened (w ∷ widths) (c ∷ cells) e =
    (omega arith, Fitting-widened widths cells (omega arith))

pub length-widen :
    (widths : List ℕ) (cells : List (List Char)) → length (widen widths cells) ≡ length widths
length-widen [] cells = refl
length-widen (w ∷ widths) [] = refl
length-widen (w ∷ widths) (c ∷ cells) = ap suc (length-widen widths cells)

-- A property of each element.
abbrev pub All : {A : Type 0} → (A → Type 0) → List A → Type 0
All P [] = Unit {0}
All P (x ∷ xs) = P x × All P xs

pub All-map :
    {A : Type 0} (P Q : A → Type 0) (xs : List A) → ((x : A) → P x → Q x) → All P xs → All Q xs
All-map P Q [] f h = tt
All-map P Q (x ∷ xs) f h = (f x h.0, All-map P Q xs f h.1)

All-get :
    {A : Type 0} (P : A → Type 0) (xs : List A) (i : ℕ) (x : A)
    → All P xs
    → get_elem? xs i ≡ some x
    → P x
All-get P [] i x h e = cc
All-get P (y ∷ xs) zero x h e = let same : y ≡ x = cc in subst P same h.0
All-get P (y ∷ xs) (suc i) x h e = All-get P xs i x h.1 e

pub gather-All :
    {A : Type 0} (P : A → Type 0) (xs : List A) (is : List ℕ)
    → AllBelow (length xs) is
    → All P xs
    → (ys : List A) × (gather xs is ≡ some ys) × All P ys × (length ys ≡ length is)
unfolding gather
gather-All P xs [] b h = ([], refl, tt, refl)
gather-All P xs (i ∷ is) b h =
    let (x, e) = get_elem?-some xs i b.0 in
    let (ys, f, all, k) = gather-All P xs is b.1 h in
    (x ∷ ys, rw (e, f) refl, (All-get P xs i x h e, all), ap suc k)

pub All-both :
    {A : Type 0} (P Q R : A → Type 0) (xs : List A)
    → All P xs
    → All Q xs
    → ((x : A) → P x → Q x → R x)
    → All R xs
All-both P Q R [] p q f = tt
All-both P Q R (x ∷ xs) p q f = (f x p.0 q.0, All-both P Q R xs p.1 q.1 f)

pub length-map : {A B : Type 0} (f : A → B) (xs : List A) → length (map f xs) ≡ length xs
length-map f [] = refl
length-map f (x ∷ xs) = ap suc (length-map f xs)

pub All-mapped :
    {A B : Type 0} (f : A → B) (P : B → Type 0) (xs : List A)
    → All (λ x. P (f x)) xs
    → All P (map f xs)
All-mapped f P [] h = tt
All-mapped f P (x ∷ xs) h = (h.0, All-mapped f P xs h.1)

-- ===== src/Base.antt =====
-- The names that the other modules share: the libraries', passed on, and those of four children.
-- A `size_t` of the program is a native number below `size_mod`.
mod Tests
mod Lists
mod Family
mod Permutations
pub use Tests.*
pub use Lists.*
pub use Family.*
pub use Permutations.*
pub use Prim.Native.Nat.{ℕ, zero, suc, ◌+◌, ◌-◌, ◌*◌, ◌/◌, ◌%◌, ◌^◌, ◌≤◌, ◌<◌, min, max}
pub use mathlib.Core.Path.{◌≡◌, refl, sym, ap, subst, ◌∙◌}
pub use mathlib.Core.Logic.{◌≢◌, ◌↔◌, ◌⊎◌, inl, inr, ite, dite}
pub use mathlib.Core.Bool.{Bool, true, false, not, ◌&&◌, ◌||◌}
pub use mathlib.Core.Option.{Option, none, some}
pub use mathlib.Core.List.{List, [], ◌∷◌, ◌++◌, map, Perm}
pub use native.Mathlib.Omega.{arith}
unfoldable pub use native.Mathlib.Decide.{dec_lt, ℕ_discrete}

-- `size_t` and `uint64_t` have 64 bits on the program's platform.
abbrev pub size_mod : ℕ
size_mod = 2 ^ 64

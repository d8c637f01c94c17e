-- ===== src/Base.antt =====
-- The names that the other modules share: the libraries', passed on, and those of the children
-- below. It models no code of its own, but for `Outcome`, which is how a Rust function ends.
mod Tests
mod Run
mod Lists
mod Int
mod Index
mod Slices
pub use Tests.*
pub use Run.*
pub use Lists.*
pub use Int.*
pub use Index.*
pub use Slices.*
pub use Prim.Native.Nat.{
  ℕ, zero, suc, ◌+◌, ◌-◌, ◌*◌, ◌/◌, ◌%◌, ◌^◌, ◌≤◌, ◌<◌, min, max, compare, Ordering,
}
pub use mathlib.Core.Path.{◌≡◌, refl, sym, ap, ◌∙◌, subst}
pub use mathlib.Core.Logic.{◌≢◌, ◌↔◌, ◌⊎◌, inl, inr}
pub use mathlib.Core.Bool.{Bool, true, false, not, ◌&&◌, ◌||◌}
pub use mathlib.Core.Option.{Option, none, some}
pub use mathlib.Core.List.{List, [], ◌∷◌, ◌++◌, map}
pub use native.Mathlib.Omega.{arith}

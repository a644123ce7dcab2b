-- ===== src/Base.antt =====
-- Shared vocabulary: the libraries' names, Boolean tests, lists, byte strings and Go maps.
mod Tests
mod Lists
mod Text
mod Signed
pub mod Affix
pub mod Trim
pub mod Dict
pub use Tests.*
unfoldable pub use Lists.*
unfoldable pub use Text.*
pub use Signed.*
pub use Prim.Native.Nat.{ℕ, zero, suc, ◌+◌, ◌-◌, ◌*◌, ◌/◌, ◌%◌, ◌^◌, ◌≤◌, ◌<◌}
pub use mathlib.Core.Path.{◌≡◌, refl, sym, ap, ◌∙◌, subst}
pub use mathlib.Core.Logic.{◌≢◌, ◌↔◌, ◌⊎◌, inl, inr}
pub use mathlib.Core.Bool.{Bool, true, false, ◌&&◌, ◌||◌, not}
pub use mathlib.Core.Option.{Option, none, some}
pub use mathlib.Core.List.{List, [], ◌∷◌, ◌++◌, map, tail}
pub use native.Mathlib.Omega.{arith}

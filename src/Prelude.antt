-- ===== src/Prelude.antt =====
-- Names that all parts of the development share: the libraries' names passed on, Boolean tests on
-- the native numbers, Go maps and slices, big integers and 64-bit words.
mod Tests
mod Lists
mod Maps
mod Words
pub mod Int
pub use Tests.*
pub use Lists.*
pub use Maps.*
pub use Words.*
pub use Int.{ℤ, pos, negsuc, pos_part, neg_part, is_zero_ℤ}
unfoldable pub use Int.{◌+ℤ◌, ◌-ℤ◌}
pub use Prim.Native.Nat.{ℕ, zero, suc, ◌+◌, ◌-◌, ◌*◌, ◌/◌, ◌%◌, ◌^◌, ◌≤◌, ◌<◌}
pub use mathlib.Core.Path.{◌≡◌, refl, sym, ap, ap₂, ◌∙◌, subst, fun_ext}
pub use mathlib.Core.Logic.{◌≢◌, ◌↔◌, ◌⊎◌, inl, inr}
pub use mathlib.Core.Bool.{Bool, true, false, not, ◌&&◌, ◌||◌}
pub use mathlib.Core.Option.{Option, none, some}
pub use mathlib.Core.List.{List, [], ◌∷◌, ◌++◌, map}
pub use native.Mathlib.Omega.{arith}

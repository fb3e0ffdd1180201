-- ===== src/Base.antt =====
-- Names shared by the models of usual/*.c and usual/*.h: the libraries', passed on, tests on numbers,
-- lists under native indices, function update and the chaining of fallible steps.
mod Tests
mod Lists
mod Steps
mod Sequence
pub mod Word
pub mod Bits
pub mod Xor
pub use Tests.*
pub use Lists.*
pub use Steps.*
pub use Sequence.*
pub use Prim.Native.Nat.{ℕ, zero, suc, ◌+◌, ◌-◌, ◌*◌, ◌/◌, ◌%◌, ◌^◌, ◌≤◌, ◌<◌}
pub use mathlib.Core.Path.{◌≡◌, refl, sym, ap, ◌∙◌, subst}
pub use mathlib.Core.Logic.{◌≢◌, ◌↔◌, ◌⊎◌, inl, inr}
pub use mathlib.Core.Bool.{Bool, true, false, not, ◌&&◌, ◌||◌}
pub use mathlib.Core.Option.{Option, none, some}
pub use mathlib.Core.List.{List, [], ◌∷◌, ◌++◌, map}
pub use native.Mathlib.Omega.{arith}

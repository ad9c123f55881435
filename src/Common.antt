-- ===== src/Common.antt =====
-- Names that every module shares: the libraries', the Boolean tests on numbers, lists indexed and
-- measured by native numbers, lists of identifiers, and stores addressed by identifier.
pub mod Tests
pub mod Lists
pub mod Ids
pub mod Int
pub mod Text
pub mod Bits
pub use Tests.*
pub use Lists.*
pub use Ids.*
pub use Prim.Native.Nat.{ℕ, zero, suc, ◌+◌, ◌-◌, ◌*◌, ◌/◌, ◌%◌, ◌^◌, ◌≤◌, ◌<◌}
pub use mathlib.Core.Path.{◌≡◌, refl, sym, ap, ◌∙◌, subst}
pub use mathlib.Core.Logic.{◌≢◌, ◌↔◌, ◌⊎◌, inl, inr}
pub use mathlib.Core.Bool.{Bool, true, false, ◌&&◌, ◌||◌, not}
pub use mathlib.Core.Option.{Option, none, some}
pub use mathlib.Core.List.{List, [], ◌∷◌, ◌++◌, map}
pub use native.Mathlib.Omega.{arith}

-- ===== src/Base.antt =====
-- The names that the other modules share: the libraries' own, passed on, and those of the children.
mod Tests
mod Lists
mod Strings
mod Trim
mod Uri
mod Bits
mod Values
mod Decimal
mod Members
mod Runs
pub use Tests.*
pub use Lists.*
unfoldable pub use Strings.*
unfoldable pub use Values.*
pub use Trim.*
pub use Bits.*
unfoldable pub use Decimal.*
pub use Members.*
unfoldable pub use Runs.*
unfoldable pub use Uri.*
pub use Prim.Native.Nat.{ℕ, zero, suc, ◌+◌, ◌-◌, ◌*◌, ◌/◌, ◌%◌, ◌^◌, ◌≤◌, ◌<◌}
pub use mathlib.Core.Path.{◌≡◌, refl, sym, ap, ap₂, ◌∙◌, subst}
pub use mathlib.Core.Logic.{◌≢◌, ◌↔◌, ◌⊎◌, inl, inr}
pub use mathlib.Core.Bool.{Bool, true, false, not, ◌&&◌, ◌||◌}
pub use mathlib.Core.Option.{Option, none, some}
pub use mathlib.Core.List.{List, [], ◌∷◌, ◌++◌, map, reverse, append-nil, append_assoc}
pub use native.Mathlib.Omega.{arith}

-- ===== src/Common.antt =====
-- The names that every other module shares: those of the libraries, passed on, Boolean tests,
-- lists over the native numbers, equality of keys, Python's exceptions, `dict` and `str(int)`.
mod Tests
mod Lists
mod Equality
mod Text
pub mod Exc
pub mod Dict
pub mod Decimal
pub mod Fresh
pub use Tests.*
unfoldable pub use Lists.*
pub use Equality.*
pub use Text.*
pub use Prim.Native.Nat.{ℕ, zero, suc, ◌+◌, ◌-◌, ◌*◌, ◌/◌, ◌%◌, ◌≤◌, ◌<◌, max, min}
pub use mathlib.Core.Path.{◌≡◌, refl, sym, ap, ◌∙◌, subst}
pub use mathlib.Core.Logic.{◌≢◌, ◌↔◌, ◌⊎◌, inl, inr}
pub use mathlib.Core.Bool.{Bool, true, false, not, ◌&&◌, ◌||◌}
pub use mathlib.Core.Option.{Option, none, some}
pub use mathlib.Core.List.{List, [], ◌∷◌, ◌++◌, map, append-nil, append_assoc}
pub use native.Mathlib.Omega.{arith}

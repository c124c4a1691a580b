-- ===== src/Base.antt =====
-- The names that the other modules share: the libraries', passed on, and those of the children:
-- Boolean tests, lists over native numbers, machine words, and the error values of src/common.
mod Tests
mod Lists
mod Words
pub mod Slots
pub mod Floating
pub mod Integers
pub mod CameraSlots
mod Errors
pub use Tests.*
pub use Lists.*
pub use Words.*
unfoldable pub use Errors.{demand, refuse_if}
pub use Errors.{
  Severity, info, warning, error, critical, DetailValue, text, number, ErrorDetail, make_error,
  Error, detail, Result, success, failure, has_value, ◌>>=◌, >>=-eq-success, success-inj,
  demand-eq-success, refuse_if-eq-success, if-eq-success,
}
pub use Prim.Native.Nat.{ℕ, zero, suc, ◌+◌, ◌-◌, ◌*◌, ◌/◌, ◌%◌, ◌^◌, ◌≤◌, ◌<◌, min, max}
pub use Prim.Native.String.{String}
pub use mathlib.Core.Path.{◌≡◌, refl, sym, ap, ap₂, subst, subst₂, ◌∙◌}
pub use mathlib.Core.Logic.{◌≢◌, ◌↔◌, ◌⊎◌, inl, inr}
pub use mathlib.Core.Bool.{Bool, true, false, not, ◌&&◌, ◌||◌}
pub use mathlib.Core.Option.{Option, none, some}
pub use mathlib.Core.List.{List, [], ◌∷◌, ◌++◌, map}
pub use native.Mathlib.Omega.{arith}
unfoldable pub use native.Mathlib.Decide.{dec_lt, dec_le, ℕ_discrete}

-- ===== src/Base/Floating.antt =====
-- The floating-point numbers of the program (`double`, `long double`), which are not modelled: the
-- type and the tests and conversions that the code makes are parameters.
use Prim.Native.Nat.{ℕ}
use mathlib.Core.Bool.{Bool}
use mathlib.Core.Option.{Option}

pub record Floating : Type 1 where
  pub Real : Type 0
  -- `std::isfinite x`
  pub is_finite : Real → Bool
  -- `x > 0.0`, `x < 0.0`, `x > 1.0`
  pub is_positive : Real → Bool
  pub is_negative : Real → Bool
  pub exceeds_one : Real → Bool
  -- `x >= y` and `x == y`
  pub at_least : Real → Real → Bool
  pub same : Real → Real → Bool
  -- `x > y`
  pub greater : Real → Real → Bool
  -- `std::chrono::duration<double>` of a number of nanoseconds
  pub seconds_of : ℕ → Real
  -- `std::ceil(x * y)` as a size, `none` above the largest size
  pub ceil_product : Real → Real → Option ℕ
  -- `static_cast<double>(n) / x`
  pub quotient : ℕ → Real → Real

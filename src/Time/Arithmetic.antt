-- ===== src/Time/Arithmetic.antt =====
-- src/time/src/time_model.cpp, the arithmetic: sums and differences of `std::int64_t` that report an
-- overflow, and the conversion of camera ticks to nanoseconds without a wider integer.
use paper_breakage_analysis.Base.{
  ℕ, zero, suc, ◌-◌, ◌*◌, ◌/◌, ◌%◌, ◌^◌, Bool, ◌&&◌, ◌||◌, Option, none, some, ltb, leb, ◌==◌,
  if◌then◌else◌, add_u64, sub_u64, u64_mod,
}
use paper_breakage_analysis.Base.Integers.{ℤ, pos, ◌+ℤ◌, ◌-ℤ◌, ltb_ℤ, int64_max, int64_min}

unfoldable pub checked_add : ℤ → ℤ → Option ℤ
checked_add left right =
    if (ltb_ℤ (pos 0) right && ltb_ℤ (int64_max -ℤ right) left)
      || (ltb_ℤ right (pos 0) && ltb_ℤ left (int64_min -ℤ right))
    then none
    else some (left +ℤ right)

unfoldable pub checked_subtract : ℤ → ℤ → Option ℤ
checked_subtract left right =
    if (ltb_ℤ (pos 0) right && ltb_ℤ left (int64_min +ℤ right))
      || (ltb_ℤ right (pos 0) && ltb_ℤ (int64_max +ℤ right) left)
    then none
    else some (left -ℤ right)

pub record UnsignedDivision : Type 0 where
  pub quotient : ℕ
  pub remainder : ℕ

-- The first half of an iteration: twice the remainder, less the divisor where it does not fit.
unfoldable pub double : ℕ → UnsignedDivision → UnsignedDivision
double divisor result =
    let room = sub_u64 divisor result.remainder in
    if leb room result.remainder
    then record {
      quotient = add_u64 (result.quotient * 2 % u64_mod) 1;
      remainder = sub_u64 result.remainder room;
    }
    else record {
      quotient = result.quotient * 2 % u64_mod;
      remainder = add_u64 result.remainder result.remainder;
    }

-- The second half, where the bit is set: the value once more.
unfoldable pub add_value : ℕ → ℕ → UnsignedDivision → UnsignedDivision
add_value value divisor result =
    let room = sub_u64 divisor value in
    if leb room result.remainder
    then record { quotient = add_u64 result.quotient 1; remainder = sub_u64 result.remainder room }
    else record { quotient = result.quotient; remainder = add_u64 result.remainder value }

unfoldable pub divide_bit : ℕ → ℕ → ℕ → ℕ → UnsignedDivision → UnsignedDivision
divide_bit value multiplier divisor bit result =
    let doubled = double divisor result in
    if multiplier / 2 ^ bit % 2 == 1 then add_value value divisor doubled else doubled

-- The loop over the bits below `n`, the highest first.
unfoldable pub divide_bits : ℕ → ℕ → ℕ → ℕ → UnsignedDivision → UnsignedDivision
divide_bits value multiplier divisor zero result = result
divide_bits value multiplier divisor (suc bit) result =
    divide_bits value multiplier divisor bit (divide_bit value multiplier divisor bit result)

unfoldable pub multiply_divide : ℕ → ℕ → ℕ → UnsignedDivision
multiply_divide value multiplier divisor =
    divide_bits value multiplier divisor 32 (record { quotient = 0; remainder = 0 })

abbrev pub nanoseconds_per_second : ℕ
nanoseconds_per_second = 1000000000

-- The same limit as an unsigned number.
abbrev pub magnitude_max : ℕ
magnitude_max = 2 ^ 63 - 1

unfoldable pub signed : Bool → ℕ → ℤ
signed negative magnitude = if negative then pos 0 -ℤ pos magnitude else pos magnitude

unfoldable pub camera_delta_nanoseconds : ℕ → ℕ → ℕ → Option ℤ
camera_delta_nanoseconds ticks anchor_ticks frequency_hz =
    let negative = ltb ticks anchor_ticks in
    let magnitude_ticks =
      if negative then sub_u64 anchor_ticks ticks else sub_u64 ticks anchor_ticks in
    let whole_seconds = magnitude_ticks / frequency_hz in
    let remaining_ticks = magnitude_ticks % frequency_hz in
    let fractional = multiply_divide remaining_ticks nanoseconds_per_second frequency_hz in
    let whole_nanoseconds = whole_seconds * nanoseconds_per_second % u64_mod in
    if ltb (magnitude_max / nanoseconds_per_second) whole_seconds
    then none
    else if ltb (sub_u64 magnitude_max whole_nanoseconds) fractional.quotient
    then none
    else some (signed negative (add_u64 whole_nanoseconds fractional.quotient))

-- ===== src/Time/Overflow.antt =====
-- What the arithmetic of `std::int64_t` in src/time/src/time_model.cpp reports.
use native.Mathlib.Nat.{div-add-mod', mod-lt, add-mul-div_right}
use paper_breakage_analysis.Base.{
  ℕ, ◌+◌, ◌-◌, ◌*◌, ◌/◌, ◌%◌, ◌<◌, ◌≡◌, Bool, if◌then◌else◌, arith, u64_mod, ltb, sub_u64, add_u64,
  Option, some, none, ap, ◌||◌, ◌∙◌,
}
use paper_breakage_analysis.Base.Integers.{
  ℤ, ◌+ℤ◌, ◌-ℤ◌, ltb_ℤ, int64_max, int64_min, +ℤ_parts, -ℤ_parts, IsInt64,
}
use paper_breakage_analysis.Time.Arithmetic.{
  checked_add, checked_subtract, multiply_divide, camera_delta_nanoseconds, nanoseconds_per_second,
  magnitude_max, signed,
}
use paper_breakage_analysis.Time.Division.{multiply_divide_exact}

-- An exact result, where the type holds it.
unfoldable pub fitting : ℤ → Option ℤ
fitting c = if ltb_ℤ c int64_min || ltb_ℤ int64_max c then none else some c

pub checked_add-fitting : (a b : ℤ) → IsInt64 a → IsInt64 b → checked_add a b ≡ fitting (a +ℤ b)
unfolding checked_add fitting
checked_add-fitting a b p q =
    ground (arith, +ℤ_parts a b, -ℤ_parts int64_max b, -ℤ_parts int64_min b)

pub checked_subtract-fitting :
    (a b : ℤ) → IsInt64 a → IsInt64 b → checked_subtract a b ≡ fitting (a -ℤ b)
unfolding checked_subtract fitting
checked_subtract-fitting a b p q =
    ground (arith, -ℤ_parts a b, +ℤ_parts int64_max b, +ℤ_parts int64_min b)

pub fitting-IsInt64 : (a c : ℤ) → fitting a ≡ some c → (c ≡ a) × IsInt64 c
unfolding fitting
fitting-IsInt64 a c e = ground arith

pub fitting_of_IsInt64 : (a : ℤ) → IsInt64 a → fitting a ≡ some a
unfolding fitting
fitting_of_IsInt64 a h = ground arith

-- The difference of two counts of ticks in nanoseconds, rounded towards zero, where it fits.
unfoldable pub exact_delta : ℕ → ℕ → ℕ → Option ℤ
exact_delta ticks anchor frequency =
    let negative = ltb ticks anchor in
    let distance = if negative then anchor - ticks else ticks - anchor in
    let magnitude = distance * nanoseconds_per_second / frequency in
    if ltb magnitude_max magnitude then none else some (signed negative magnitude)

grind_mul : (q f r : ℕ) → (q * f + r) * 1000000000 ≡ r * 1000000000 + q * 1000000000 * f
grind_mul q f r = grind arith

-- The nanoseconds of some ticks are those of the whole seconds and those of the rest.
split_seconds : (t f : ℕ) → 0 < f → t * 1000000000 / f ≡ t / f * 1000000000 + t % f * 1000000000 / f
split_seconds t f h =
    let parts : t * 1000000000 ≡ t % f * 1000000000 + t / f * 1000000000 * f =
      omega (arith, ap (λ x. x * 1000000000) (div-add-mod' t f), grind_mul (t / f) f (t % f)) in
    rw parts (add-mul-div_right (t % f * 1000000000) (t / f * 1000000000) h ∙ omega arith)

of_distance :
    (n : Bool) (d f : ℕ)
    → d < u64_mod
    → 0 < f
    → f < u64_mod
    → (if ltb (magnitude_max / nanoseconds_per_second) (d / f)
        then none
        else if ltb
            (sub_u64 magnitude_max (d / f * nanoseconds_per_second % u64_mod))
            (multiply_divide (d % f) nanoseconds_per_second f).quotient
        then none
        else some (
            signed n (
              add_u64
                (d / f * nanoseconds_per_second % u64_mod)
                (multiply_divide (d % f) nanoseconds_per_second f).quotient)))
      ≡ (if ltb magnitude_max (d * nanoseconds_per_second / f)
          then none
          else some (signed n (d * nanoseconds_per_second / f)))
of_distance n d f a b c =
    let rest =
      multiply_divide_exact (d % f) nanoseconds_per_second f (mod-lt d b) c (omega arith) in
    let whole = split_seconds d f b in ground (arith, rest.0, whole)

-- For ticks and an anchor of 64 bits and a frequency of 64 bits that is not zero,
-- `camera_delta_nanoseconds` is the exact distance in nanoseconds, rounded towards zero, with the sign
-- of the difference, and none exactly where its magnitude is above the largest `std::int64_t`.
pub camera_delta_nanoseconds-exact_delta :
    (ticks anchor frequency : ℕ)
    → ticks < u64_mod
    → anchor < u64_mod
    → 0 < frequency
    → frequency < u64_mod
    → camera_delta_nanoseconds ticks anchor frequency ≡ exact_delta ticks anchor frequency
unfolding camera_delta_nanoseconds exact_delta
camera_delta_nanoseconds-exact_delta t a f p q r s =
    let same : (if ltb t a then sub_u64 a t else sub_u64 t a) ≡ (if ltb t a then a - t else t - a) =
      ground arith in
    rw same (of_distance (ltb t a) (if ltb t a then a - t else t - a) f (ground arith) r s)

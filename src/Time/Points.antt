-- ===== src/Time/Points.antt =====
-- src/time/src/time_model.cpp, `time_point_nanoseconds`: the time points of a clock of the standard
-- library as nanoseconds. A time point is the count of its clock, and the ticks of a second are a
-- parameter; they divide a thousand million, as those of every clock that the program is built with.
use native.Mathlib.Nat.{div-add-mod', mul-div_cancel_left, mul-lt-mul_of_pos_right, mod-lt}
use paper_breakage_analysis.Base.{
  ℕ, zero, suc, ◌+◌, ◌*◌, ◌/◌, ◌%◌, ◌<◌, ◌≡◌, refl, sym, ap, ◌∙◌, ◌||◌, Option, none, if◌then◌else◌,
  arith,
}
use paper_breakage_analysis.Base.Integers.{ℤ, pos, negsuc, ltb_ℤ, ◌+ℤ◌, ◌-ℤ◌, int64_max, int64_min}
use paper_breakage_analysis.Time.Arithmetic.{checked_add, nanoseconds_per_second}
use paper_breakage_analysis.Time.Overflow.{fitting}

abbrev pub negated : ℕ → ℤ
negated zero = pos 0
negated (suc n) = negsuc n

-- Division and its remainder round towards zero; a product with a number that is not negative.
abbrev pub tdiv : ℤ → ℕ → ℤ
tdiv (pos n) k = pos (n / k)
tdiv (negsuc n) k = negated ((n + 1) / k)

abbrev pub tmod : ℤ → ℕ → ℤ
tmod (pos n) k = pos (n % k)
tmod (negsuc n) k = negated ((n + 1) % k)

abbrev pub scale : ℤ → ℕ → ℤ
scale (pos n) k = pos (n * k)
scale (negsuc n) k = negated ((n + 1) * k)

unfoldable pub time_point_nanoseconds : ℕ → ℤ → Option ℤ
time_point_nanoseconds ticks_per_second count =
    let seconds = tdiv count ticks_per_second in
    let remainder_ns =
      scale (tmod count ticks_per_second) (nanoseconds_per_second / ticks_per_second) in
    if ltb_ℤ (tdiv int64_max nanoseconds_per_second) seconds
      || ltb_ℤ seconds (tdiv int64_min nanoseconds_per_second)
    then none
    else checked_add (scale seconds nanoseconds_per_second) remainder_ns

regroup : (q r t k : ℕ) → (q * t + r) * k ≡ q * (t * k) + r * k
regroup q r t k = grind arith

-- The two parts of a count of ticks.
parts_lem :
    (n t k : ℕ)
    → 0 < t
    → 0 < k
    → t * k ≡ 1000000000
    → (n / t * 1000000000 + n % t * k ≡ n * k) × (n % t * k < 1000000000)
parts_lem n t k g h e =
    let whole = regroup (n / t) (n % t) t k in
    let same = ap (λ x. x * k) (div-add-mod' n t) in
    let scaled = ap (λ x. n / t * x) e in
    let below : n % t * k < t * k = mul-lt-mul_of_pos_right (mod-lt n g) h in
    (omega (arith, whole, same, scaled), omega (arith, below, e))

scale-neg : (a k : ℕ) → scale (negated a) k ≡ negated (a * k)
scale-neg zero k = let none : 0 * k ≡ 0 = grind arith in rw none refl
scale-neg (suc a) k = let same : a + 1 ≡ suc a = omega arith in ap (λ x. negated (x * k)) same

per_tick : (t k : ℕ) → 0 < t → t * k ≡ 1000000000 → 1000000000 / t ≡ k
per_tick t k h e = ap (λ x. x / t) (sym e) ∙ mul-div_cancel_left k h

of_parts-pos :
    (s r : ℕ)
    → r < 1000000000
    → (if ltb_ℤ (pos 9223372036) (pos s) || ltb_ℤ (pos s) (negsuc 9223372035)
        then none
        else checked_add (pos (s * 1000000000)) (pos r))
      ≡ fitting (pos (s * 1000000000 + r))
unfolding checked_add fitting ◌+ℤ◌ ◌-ℤ◌
of_parts-pos s r h = ground arith

of_parts-neg :
    (s r : ℕ)
    → r < 1000000000
    → (if ltb_ℤ (pos 9223372036) (negated s) || ltb_ℤ (negated s) (negsuc 9223372035)
        then none
        else checked_add (negated (s * 1000000000)) (negated r))
      ≡ fitting (negated (s * 1000000000 + r))
unfolding checked_add fitting ◌+ℤ◌ ◌-ℤ◌
of_parts-neg s r h = ground arith

-- For a clock whose ticks per second divide a thousand million, `time_point_nanoseconds` is the count
-- times the nanoseconds of a tick, and none exactly where that product does not fit in 64 bits.
pub time_point_nanoseconds-fitting :
    (t k : ℕ) (count : ℤ)
    → 0 < t
    → 0 < k
    → t * k ≡ 1000000000
    → time_point_nanoseconds t count ≡ fitting (scale count k)
unfolding time_point_nanoseconds
time_point_nanoseconds-fitting t k (pos n) g h e =
    let parts = parts_lem n t k g h e in
    rw (per_tick t k g e)
      (of_parts-pos (n / t) (n % t * k) parts.1 ∙ ap (λ x. fitting (pos x)) parts.0)
time_point_nanoseconds-fitting t k (negsuc n) g h e =
    let parts = parts_lem (n + 1) t k g h e in
    rw (per_tick t k g e, scale-neg ((n + 1) / t) 1000000000, scale-neg ((n + 1) % t) k)
      (of_parts-neg ((n + 1) / t) ((n + 1) % t * k) parts.1 ∙ ap (λ x. fitting (negated x)) parts.0)

-- ===== src/Time/Division.antt =====
-- The loop of `multiply_divide` in src/time/src/time_model.cpp.
use native.Mathlib.Nat.{
  le_of_mul-le-mul_right, mul-le-mul_right, mul_comm, div-div-eq-div-mul, pow-suc, div-le_self,
  div-eq_of_lt-le, mod-eq-sub-div-mul,
}
use paper_breakage_analysis.Base.{
  ℕ, zero, suc, ◌+◌, ◌-◌, ◌*◌, ◌/◌, ◌%◌, ◌^◌, ◌≤◌, ◌<◌, ◌≡◌, arith, u64_mod, ◌==◌, if-holds, ==_iff,
  sym, ◌∙◌, ap, subst,
}
use paper_breakage_analysis.Time.Arithmetic.{
  UnsignedDivision, double, add_value, divide_bit, divide_bits, multiply_divide,
}

abbrev Represents : ℕ → ℕ → UnsignedDivision → Type 0
Represents total divisor s = (s.quotient * divisor + s.remainder ≡ total) × (s.remainder < divisor)

carry : (q d r : ℕ) → r < d → d - r ≤ r → (2 * q + 1) * d + (r - (d - r)) ≡ 2 * (q * d + r)
carry q d r a b = grind arith

carry_value : (q d r v : ℕ) → v < d → d - v ≤ r → (q + 1) * d + (r - (d - v)) ≡ q * d + r + v
carry_value q d r v a b = grind arith

no_carry : (q d r : ℕ) → 2 * q * d + (r + r) ≡ 2 * (q * d + r)
no_carry q d r = grind arith

double_lem :
    (d : ℕ) (s : UnsignedDivision)
    → d < u64_mod
    → s.quotient < 2 ^ 62
    → s.remainder < d
    → Represents (2 * (s.quotient * d + s.remainder)) d (double d s)
unfolding double
double_lem d s a b c =
    ground (arith, carry s.quotient d s.remainder, no_carry s.quotient d s.remainder)

add_value_lem :
    (v d : ℕ) (s : UnsignedDivision)
    → d < u64_mod
    → v < d
    → s.quotient < 2 ^ 63
    → s.remainder < d
    → Represents (s.quotient * d + s.remainder + v) d (add_value v d s)
unfolding add_value
add_value_lem v d s a b c e = ground (arith, carry_value s.quotient d s.remainder v)

-- A quotient is no more than the factor of a value below the divisor.
quotient_le : (v d k q r : ℕ) → v < d → q * d + r ≡ v * k → q ≤ k
quotient_le v d k q r a e =
    le_of_mul-le-mul_right {k = d}
      (omega (arith, mul-le-mul_right {m = v} {n = d} k (omega arith), mul_comm d k)) (omega arith)

doubled_lem :
    (v d k : ℕ) (s : UnsignedDivision)
    → d < u64_mod
    → v < d
    → k < 2 ^ 32
    → Represents (v * k) d s
    → Represents (v * (2 * k)) d (double d s)
doubled_lem v d k s a b c r =
    let small = quotient_le v d k s.quotient s.remainder b r.0 in
    let twice : v * (2 * k) ≡ 2 * (v * k) = grind arith in
    rw (twice, sym r.0) (double_lem d s a (omega arith) r.1)

added_lem :
    (v d k : ℕ) (s : UnsignedDivision)
    → d < u64_mod
    → v < d
    → k < 2 ^ 33
    → Represents (v * k) d s
    → Represents (v * (k + 1)) d (add_value v d s)
added_lem v d k s a b c r =
    let small = quotient_le v d k s.quotient s.remainder b r.0 in
    let more : v * (k + 1) ≡ v * k + v = grind arith in
    rw (more, sym r.0) (add_value_lem v d s a b (omega arith) r.1)

-- One iteration goes from the value times `k` to the value times `2 * k`, or once more.
divide_bit_lem :
    (v m d bit k : ℕ) (s : UnsignedDivision)
    → d < u64_mod
    → v < d
    → k < 2 ^ 32
    → Represents (v * k) d s
    → Represents (v * (2 * k + m / 2 ^ bit % 2)) d (divide_bit v m d bit s)
unfolding divide_bit
divide_bit_lem v m d bit k s a b c r =
    let doubled = doubled_lem v d k s a b c r in
    if-holds (λ t. Represents (v * (2 * k + m / 2 ^ bit % 2)) d t) (m / 2 ^ bit % 2 == 1)
      (λ e.
        let one : m / 2 ^ bit % 2 ≡ 1 = (==_iff _ 1).0 e in
        rw one (added_lem v d (2 * k) (double d s) a b (omega arith) doubled))
      (λ e. let none : 2 * k + m / 2 ^ bit % 2 ≡ 2 * k = ground arith in rw none doubled)

halve : (m bit : ℕ) → m / 2 ^ bit ≡ 2 * (m / 2 ^ suc bit) + m / 2 ^ bit % 2
halve m bit =
    let half : m / 2 ^ suc bit ≡ m / 2 ^ bit / 2 =
      ap (◌/◌ m) (pow-suc 2 bit) ∙ sym (div-div-eq-div-mul m (2 ^ bit) 2) in
    omega (arith, half)

divide_bits_lem :
    (v m d n : ℕ) (s : UnsignedDivision)
    → d < u64_mod
    → v < d
    → m < 2 ^ 32
    → Represents (v * (m / 2 ^ n)) d s
    → Represents (v * m) d (divide_bits v m d n s)
unfolding divide_bits
divide_bits_lem v m d zero s a b c r =
    let whole : m / 2 ^ 0 ≡ m = omega arith in subst (λ t. Represents (v * t) d s) whole r
divide_bits_lem v m d (suc bit) s a b c r =
    divide_bits_lem v m d bit (divide_bit v m d bit s) a b c (
      rw (halve m bit) (
        divide_bit_lem v m d bit (m / 2 ^ suc bit) s a b
          (omega (arith, div-le_self m (2 ^ suc bit))) r))

of_parts : (q r d total : ℕ) → q * d + r ≡ total → r < d → (q ≡ total / d) × (r ≡ total % d)
of_parts q r d total e h =
    let split : (q + 1) * d ≡ q * d + d = grind arith in
    let same = div-eq_of_lt-le {k = q} d {m = total} (omega arith) (omega arith) in
    (sym same, omega (arith, mod-eq-sub-div-mul total d, ap (λ t. t * d) same))

-- For a value below the divisor, a 32-bit multiplier and any 64-bit divisor, the 32 shifts and
-- subtractions of `multiply_divide` return the quotient and the remainder of the whole product by
-- the divisor, though neither the product nor a sum above 64 bits is ever formed.
pub multiply_divide_exact :
    (value multiplier divisor : ℕ)
    → value < divisor
    → divisor < u64_mod
    → multiplier < 2 ^ 32
    → let result = multiply_divide value multiplier divisor in
      (result.quotient ≡ value * multiplier / divisor)
      × (result.remainder ≡ value * multiplier % divisor)
unfolding multiply_divide
multiply_divide_exact v m d a b c =
    let high : m / 2 ^ 32 ≡ 0 = omega arith in
    let start : v * (m / 2 ^ 32) ≡ 0 = ap (◌*◌ v) high ∙ grind arith in
    let whole =
      divide_bits_lem v m d 32 (record { quotient = 0; remainder = 0 }) b a c
        (omega (arith, start), omega arith) in
    of_parts _ _ d (v * m) whole.0 whole.1

-- ===== src/Uplink/Retry.antt =====
-- src/uplink/src/upload_scheduler.cpp, `upload_retry_delay`: an exponential delay with a ceiling. The
-- product with the floating-point jitter, rounded down, is a parameter. Delays are milliseconds.
use native.Mathlib.Nat.{pow-suc}
use paper_breakage_analysis.Base.{
  ℕ, zero, suc, ◌-◌, ◌*◌, ◌/◌, ◌^◌, ◌≤◌, ◌<◌, min, max, ◌≡◌, refl, ap, ◌∙◌, ltb, if◌then◌else◌,
  arith,
}

unfoldable pub grow : ℕ → ℕ → ℕ → ℕ
grow maximum zero base = base
grow maximum (suc n) base =
    let rest = grow maximum n (if ltb (maximum / 2) base then maximum else base * 2) in
    if ltb base maximum then rest else base

unfoldable pub retry_base : ℕ → ℕ → ℕ → ℕ
unfolding grow
retry_base initial maximum attempt_number =
    min (grow maximum (max 1 attempt_number - 1) initial) maximum

unfoldable pub upload_retry_delay : ℕ → ℕ → ℕ → (ℕ → ℕ) → ℕ
unfolding retry_base
upload_retry_delay initial maximum attempt_number jitter =
    min (max 1 (jitter (retry_base initial maximum attempt_number))) maximum

grow_full : (maximum n base : ℕ) → maximum ≤ base → grow maximum n base ≡ base
unfolding grow
grow_full m zero b h = refl
grow_full m (suc n) b h = ground arith

doubled : (i n : ℕ) → i * 2 ^ suc n ≡ i * 2 * 2 ^ n
doubled i n = ap (λ x. i * x) (pow-suc 2 n) ∙ grind arith

at_least : (i n : ℕ) → i ≤ i * 2 ^ n
at_least i zero = omega arith
at_least i (suc n) = omega (arith, doubled i n, at_least (i * 2) n)

grow_lem :
    (maximum n base : ℕ)
    → base ≤ maximum
    → min (grow maximum n base) maximum ≡ min (base * 2 ^ n) maximum
unfolding grow
grow_lem m zero b h = omega arith
grow_lem m (suc n) b h =
    ground
      (arith, grow_full m n m (omega arith), grow_lem m n (b * 2), doubled b n, at_least (b * 2) n)

-- The base of the delay before an attempt is the initial delay doubled once for each attempt before it,
-- and the maximum where that is more: the loop, which stops doubling early so that no product
-- overflows, computes exactly this for any initial delay up to the maximum.
pub retry_base_exact :
    (initial maximum attempt : ℕ)
    → initial ≤ maximum
    → 0 < attempt
    → retry_base initial maximum attempt ≡ min (initial * 2 ^ (attempt - 1)) maximum
unfolding retry_base
retry_base_exact i m a h p =
    let same : max 1 a - 1 ≡ a - 1 = omega arith in rw same (grow_lem m (a - 1) i h)

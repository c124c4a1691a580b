-- ===== src/Base/Words.antt =====
-- Unsigned machine integers: `std::uint64_t` and the 64-bit `std::size_t`.
use Prim.Native.Nat.{ℕ, ◌+◌, ◌-◌, ◌%◌, ◌^◌, ◌≤◌, ◌<◌}
use mathlib.Core.Path.{◌≡◌}
use native.Mathlib.Omega.{arith}

abbrev pub u64_mod : ℕ
u64_mod = 2 ^ 64

abbrev pub u64_max : ℕ
u64_max = 2 ^ 64 - 1

-- `a + b`
abbrev pub add_u64 : ℕ → ℕ → ℕ
add_u64 a b = (a + b) % u64_mod

-- `a - b`
abbrev pub sub_u64 : ℕ → ℕ → ℕ
sub_u64 a b = (a + u64_mod - b % u64_mod) % u64_mod

-- `++a`
abbrev pub inc_u64 : ℕ → ℕ
inc_u64 a = (a + 1) % u64_mod

pub sub_u64_of_le : (a b : ℕ) → b ≤ a → a < u64_mod → sub_u64 a b ≡ a - b
sub_u64_of_le a b h k = omega arith

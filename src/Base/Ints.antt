-- ===== src/Base/Ints.antt =====
-- Signed ints as bit patterns of 32 bits.
use Prim.Native.Nat.{ℕ, ◌+◌, ◌/◌, ◌%◌, ◌^◌, ◌<◌}
use mathlib.Core.Path.{◌≡◌}
use mathlib.Core.Bool.{Bool}
use native.Mathlib.Omega.{arith}
use xv6_extended.Base.Tests.{ltb, leb, ◌==◌}

-- `a < b` on two ints
abbrev pub lt_int : ℕ → ℕ → Bool
lt_int a b = ltb ((a + 2 ^ 31) % 2 ^ 32) ((b + 2 ^ 31) % 2 ^ 32)

-- `a < 0`
abbrev pub is_negative : ℕ → Bool
is_negative a = leb (2 ^ 31) a

abbrev pub add_int : ℕ → ℕ → ℕ
add_int a b = (a + b) % 2 ^ 32

-- On ints that are not negative the order is that of the numbers.
pub lt_int-eq-ltb : (a b : ℕ) → a < 2 ^ 31 → b < 2 ^ 31 → lt_int a b ≡ ltb a b
lt_int-eq-ltb a b ha hb = ground arith

-- Whether the bit `power`, a power of 2, is set in `x`.
abbrev pub has_bit : ℕ → ℕ → Bool
has_bit x power = x / power % 2 == 1

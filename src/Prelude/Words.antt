-- ===== src/Prelude/Words.antt =====
-- Go's `int` on the supported 64-bit platforms: a bit pattern below 2 ^ 64, read as two's complement.
use Prim.Native.Nat.{ℕ, ◌+◌, ◌%◌, ◌^◌, ◌<◌}
use mathlib.Core.Path.{◌≡◌}
use mathlib.Core.Bool.{Bool}
use native.Mathlib.Omega.{arith}
use yuex.Prelude.Tests.{ltb}

-- a + b
unfoldable pub add_int : ℕ → ℕ → ℕ
add_int a b = (a + b) % 2 ^ 64

-- a < b, with the sign bit flipped on both sides
unfoldable pub lt_int : ℕ → ℕ → Bool
lt_int a b = ltb ((a + 2 ^ 63) % 2 ^ 64) ((b + 2 ^ 63) % 2 ^ 64)

-- Below 2 ^ 63 the two operations are those of the numbers.
pub add_int-eq : (a b : ℕ) → a + b < 2 ^ 63 → add_int a b ≡ a + b
unfolding add_int
add_int-eq a b h = omega arith

pub lt_int-eq : (a b : ℕ) → a < 2 ^ 63 → b < 2 ^ 63 → lt_int a b ≡ ltb a b
unfolding lt_int
lt_int-eq a b h k = ground arith

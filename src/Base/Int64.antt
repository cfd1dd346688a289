-- ===== src/Base/Int64.antt =====
-- `int64` as its 64-bit pattern: addition wraps, and the order reads the pattern as two's complement.
use Prim.Native.Nat.{ℕ, ◌+◌, ◌-◌, ◌*◌, ◌%◌, ◌^◌, ◌<◌}
use mathlib.Core.Path.{◌≡◌}
use mathlib.Core.Bool.{Bool}
use native.Mathlib.Omega.{arith}
use v2ray_platform.Base.Tests.{ltb, leb}

abbrev pub Int64 : Type 0
Int64 = ℕ

abbrev pub modulus : ℕ
modulus = 2 ^ 64

-- the patterns below it are the integers that are not negative
abbrev pub min_negative : ℕ
min_negative = 2 ^ 63

unfoldable pub add64 : Int64 → Int64 → Int64
add64 a b = (a + b) % modulus

unfoldable pub sub64 : Int64 → Int64 → Int64
sub64 a b = (a + modulus - b) % modulus

unfoldable pub mul64 : Int64 → Int64 → Int64
mul64 a b = (a * b) % modulus

-- moves the order of the integers to the order of the patterns
unfoldable pub bias : Int64 → ℕ
bias a = (a + min_negative) % modulus

unfoldable pub lt64 : Int64 → Int64 → Bool
unfolding bias
lt64 a b = ltb (bias a) (bias b)

unfoldable pub le64 : Int64 → Int64 → Bool
unfolding bias
le64 a b = leb (bias a) (bias b)

pub add64_small : (a b : Int64) → a + b < min_negative → add64 a b ≡ a + b
unfolding add64
add64_small a b h = omega arith

pub lt64_small : (a b : Int64) → a < min_negative → b < min_negative → lt64 a b ≡ ltb a b
unfolding lt64
lt64_small a b h k = ground arith

pub le64_small : (a b : Int64) → a < min_negative → b < min_negative → le64 a b ≡ leb a b
unfolding le64
le64_small a b h k = ground arith

-- ===== src/Prelude/Float.antt =====
-- Go's float32 and float64 by their IEEE 754 bits: which are numbers, and how they compare. Their
-- arithmetic is the machine's, and a parameter of the definitions that use it.
use Prim.Native.Nat.{ℕ, ◌%◌, ◌^◌}
use mathlib.Core.Bool.{Bool, not, ◌&&◌}
use ash_jazz_ai_agent.Prelude.Tests.{ltb, leb, ◌==◌, if◌then◌else◌}
use ash_jazz_ai_agent.Prelude.Int.{ℤ, pos, sub_ℕ, ltb_ℤ, leb_ℤ}

pub record Float64 : Type 0 where
  pub bits : ℕ

pub record Float32 : Type 0 where
  pub bits : ℕ

-- An exponent of ones with a fraction that is not zero.
unfoldable pub is_nan : Float64 → Bool
is_nan x = ltb 0x7ff0_0000_0000_0000 (x.bits % 2 ^ 63)

-- The order of the numbers is that of their signed magnitudes, in which the two zeros are one.
unfoldable pub magnitude : Float64 → ℤ
magnitude x = if leb (2 ^ 63) x.bits then sub_ℕ 0 (x.bits % 2 ^ 63) else pos (x.bits % 2 ^ 63)

-- `x < y`
unfoldable pub less : Float64 → Float64 → Bool
less x y = not (is_nan x) && (not (is_nan y) && ltb_ℤ (magnitude x) (magnitude y))

-- `x == y`
unfoldable pub equal : Float64 → Float64 → Bool
equal x y =
    not (is_nan x)
    && (not (is_nan y) && (leb_ℤ (magnitude x) (magnitude y) && leb_ℤ (magnitude y) (magnitude x)))

-- `x != 0` for a float32; the two zeros are zero.
abbrev pub is_zero32 : Float32 → Bool
is_zero32 x = x.bits % 2 ^ 31 == 0

-- The operations of the machine that the code uses.
pub record Arithmetic : Type 0 where
  pub of_float32 : Float32 → Float64
  pub add : Float64 → Float64 → Float64
  pub mul : Float64 → Float64 → Float64
  pub div : Float64 → Float64 → Float64
  pub sqrt : Float64 → Float64

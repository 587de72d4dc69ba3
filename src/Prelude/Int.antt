-- ===== src/Prelude/Int.antt =====
-- Go's signed integers over the native numbers, under the library's names (its ℤ stands on the
-- unary ℕ), and time.Duration and time.Time of the standard library.
use Prim.Native.Nat.{ℕ, suc, ◌+◌, ◌-◌, ◌^◌, ◌/◌, ◌%◌, ◌≤◌}
use mathlib.Core.Path.{◌≡◌}
use mathlib.Core.Bool.{Bool, ◌&&◌}
use native.Mathlib.Omega.{arith}
use ash_jazz_ai_agent.Prelude.Tests.{ltb, leb, if◌then◌else◌}

-- `negsuc n` is -(n + 1).
pub data ℤ : Type 0 where
  pos : ℕ → ℤ
  negsuc : ℕ → ℤ

abbrev pub pos_part : ℤ → ℕ
pos_part (pos n) = n
pos_part (negsuc n) = 0

abbrev pub neg_part : ℤ → ℕ
neg_part (pos n) = 0
neg_part (negsuc n) = suc n

-- a - b, as an integer.
abbrev pub sub_ℕ : ℕ → ℕ → ℤ
sub_ℕ a b = if leb b a then pos (a - b) else negsuc (b - a - 1)

infixl 65 ◌+ℤ◌
infix 50 ◌≤ℤ◌
unfoldable pub ◌+ℤ◌ : ℤ → ℤ → ℤ
a +ℤ b = sub_ℕ (pos_part a + pos_part b) (neg_part a + neg_part b)

abbrev pub ◌≤ℤ◌ : ℤ → ℤ → Type 0
a ≤ℤ b = pos_part a + neg_part b ≤ pos_part b + neg_part a

abbrev pub ltb_ℤ : ℤ → ℤ → Bool
ltb_ℤ a b = ltb (pos_part a + neg_part b) (pos_part b + neg_part a)

abbrev pub leb_ℤ : ℤ → ℤ → Bool
leb_ℤ a b = leb (pos_part a + neg_part b) (pos_part b + neg_part a)

pub +ℤ_parts :
    (a b : ℤ)
    → pos_part (a +ℤ b) + neg_part a + neg_part b ≡ neg_part (a +ℤ b) + pos_part a + pos_part b
unfolding ◌+ℤ◌
+ℤ_parts a b = ground arith

pub eq_of_parts : (a b : ℤ) → pos_part a + neg_part b ≡ pos_part b + neg_part a → a ≡ b
eq_of_parts a b h = ground arith

pub ruleset int_laws = (arith, +ℤ_parts, eq_of_parts)

-- `x <= 0`, the test of every Go configuration guard.
abbrev pub not_positive : ℤ → Bool
not_positive x = leb_ℤ x (pos 0)

-- `x == 0`
abbrev pub is_zero : ℤ → Bool
is_zero x = leb_ℤ x (pos 0) && leb_ℤ (pos 0) x

-- What a Go int keeps of a number: its residue between -2^63 and 2^63 - 1.
abbrev signed : ℕ → ℤ
signed n = if ltb n (2 ^ 63) then pos n else negsuc (2 ^ 64 - 1 - n)

unfoldable pub wrap_int : ℤ → ℤ
wrap_int (pos n) = signed (n % 2 ^ 64)
wrap_int (negsuc n) = signed (2 ^ 64 - 1 - n % 2 ^ 64)

-- The largest time.Duration, in nanoseconds.
unfoldable pub max_duration : ℕ
max_duration = 2 ^ 63 - 1

-- `t.Sub(u)` for two times in nanoseconds since the zero time.Time; the standard library saturates.
unfoldable pub sub_time : ℕ → ℕ → ℤ
unfolding max_duration
sub_time t u =
    if ltb max_duration (t - u)
    then pos max_duration
    else if ltb max_duration (u - t)
    then negsuc max_duration
    else sub_ℕ t u

-- A duration that fits has passed exactly when the later time is that far from the earlier.
pub sub_time-lt_iff : (t u d : ℕ) → d ≤ max_duration → ltb_ℤ (sub_time t u) (pos d) ≡ ltb t (u + d)
unfolding sub_time
sub_time-lt_iff t u d h = ground arith

-- `d.Milliseconds()`, which rounds towards zero.
unfoldable pub milliseconds : ℤ → ℤ
milliseconds (pos n) = pos (n / 1_000_000)
milliseconds (negsuc n) = sub_ℕ 0 (suc n / 1_000_000)

-- `t.Add(d)`; a time before the zero time is the zero time here.
unfoldable pub add_time : ℕ → ℤ → ℕ
add_time t d = t + pos_part d - neg_part d

pub pos_part-sub_time-le : (t u : ℕ) → pos_part (sub_time t u) ≤ t - u
unfolding sub_time
pos_part-sub_time-le t u = ground arith

-- Up to the largest duration the later time shows the whole distance.
pub le-pos_part-sub_time : (t u d : ℕ) → d ≤ max_duration → u + d ≤ t → d ≤ pos_part (sub_time t u)
unfolding sub_time
le-pos_part-sub_time t u d h k = ground arith

-- ===== src/RateLimit/Tests.antt =====
-- Runs of the limiter, and its theorem at a concrete history, over a machine that counts in bits: its
-- numbers from 0 on are their IEEE bits, in the order of their values, and it has no number below.
use Prim.Native.Nat.{ℕ, ◌-◌, ◌≤◌, ◌^◌}
use ash_jazz_ai_agent.Prelude.{
  suc, false, ◌||◌, List, [], ◌∷◌, some, none, ◌≡◌, refl, arith, leb, if◌then◌else◌,
}
use ash_jazz_ai_agent.Prelude.Int.{pos, pos_part}
use ash_jazz_ai_agent.Prelude.Float.{Float64, less, equal, is_nan, magnitude}
use ash_jazz_ai_agent.Prelude.Dict.{lookup, text_key}
use ash_jazz_ai_agent.RateLimit.{
  Machine, MemoryBucket, MemoryLimiter, has_token, new_memory_limiter, allow, configure,
}
use ash_jazz_ai_agent.RateLimit.Burst.{Event, IsIeee, after_events, granted, granted-le}

abbrev nan : Float64
nan = record { bits = 0x7ff8_0000_0000_0000 }

abbrev difference : Float64 → Float64 → Float64
difference x y = if leb (2 ^ 63) x.bits || is_nan x then nan else record { bits = x.bits - y.bits }

abbrev machine : Machine
machine = record {
  of_int = λ n. record { bits = pos_part n };
  seconds = λ d. record { bits = pos_part d };
  add = λ x y. x;
  sub = difference;
  mul = λ x y. x;
  div = λ x y. x;
}

zero_has_none :
    (x : Float64) → less (machine.of_int (pos 0)) x ≡ false → has_token machine x ≡ false
unfolding less equal is_nan magnitude
zero_has_none x h = ground (arith, h)

sub_below :
    (bound x : Float64)
    → less bound x ≡ false
    → less bound (machine.sub x (machine.of_int (pos 1))) ≡ false
unfolding less is_nan magnitude
sub_below bound x h = ground (arith, h)

sub_one :
    (n : ℕ) (x : Float64)
    → suc n ≤ 2 ^ 53
    → less (machine.of_int (pos (suc n))) x ≡ false
    → less (machine.of_int (pos n)) (machine.sub x (machine.of_int (pos 1))) ≡ false
unfolding less is_nan magnitude
sub_one n x small h = ground (arith, small, h)

ieee : IsIeee machine
ieee = record { zero_has_none = zero_has_none; sub_below = sub_below; sub_one = sub_one }

-- Two calls in ten nanoseconds, and one call at once.
abbrev history : List Event
history = Event.configured "u" (pos 2) (pos 10) 100 ∷ Event.called none "u" 100 ∷ []

abbrev bucket : MemoryBucket
bucket = record { rate = pos 2; period = pos 10; tokens = record { bits = 1 }; last_refill = 100 }

abbrev limiter : MemoryLimiter
limiter = ("u", bucket) ∷ []

reached : after_events machine (some new_memory_limiter) history ≡ some limiter
unfolding configure allow is_nan magnitude
reached = refl

held : lookup "u" limiter ≡ some bucket
unfolding lookup
held = refl

-- One of the two is left.
one_left : granted machine 3 (some limiter) "u" 100 ≡ 1
unfolding allow is_nan magnitude
one_left = refl

granted-le_example : granted machine 3 (some limiter) "u" 100 ≤ 2
granted-le_example =
    granted-le machine ieee history "u" 100 3 2 limiter bucket reached held refl (omega arith)

-- ===== src/RateLimit.antt =====
-- pkg/ai/ratelimit/memory_limiter.go, the token buckets of the in-memory limiter. The arithmetic of float64
-- and Duration.Seconds are parameters; comparisons are Go's. Times are nanoseconds since the zero time,
-- and the clock's reading is an argument.
pub mod Burst
pub mod Isolation
pub mod Tests
use ash_jazz_ai_agent.Prelude.{
  ℕ, String, Bool, true, false, ◌||◌, [], Option, none, some, ltb, ◌==◌, if◌then◌else◌,
}
use ash_jazz_ai_agent.Prelude.Int.{ℤ, pos, not_positive, sub_time}
use ash_jazz_ai_agent.Prelude.Float.{Float64, less, equal}
use ash_jazz_ai_agent.Prelude.Dict.{Dict, lookup, insert, erase, text_key}
use ash_jazz_ai_agent.Errors.{Error, Result, ok, err}

-- The operations of the machine: float64 of an int, Duration.Seconds, and the arithmetic of float64.
pub record Machine : Type 0 where
  pub of_int : ℤ → Float64
  pub seconds : ℤ → Float64
  pub add : Float64 → Float64 → Float64
  pub sub : Float64 → Float64 → Float64
  pub mul : Float64 → Float64 → Float64
  pub div : Float64 → Float64 → Float64

pub record MemoryBucket : Type 0 where
  pub rate : ℤ
  pub period : ℤ
  pub tokens : Float64
  pub last_refill : ℕ

abbrev pub MemoryLimiter : Type 0
MemoryLimiter = Dict String MemoryBucket

abbrev pub new_memory_limiter : MemoryLimiter
new_memory_limiter = []

module _ (m : Machine) where
  -- The tokens that a time brings, up to a full bucket.
  abbrev pub add_tokens : MemoryBucket → ℤ → ℕ → MemoryBucket
  add_tokens b elapsed now =
      let refill = m.div (m.mul (m.seconds elapsed) (m.of_int b.rate)) (m.seconds b.period) in
      let tokens = m.add b.tokens refill in
      record b {
        tokens = if less (m.of_int b.rate) tokens then m.of_int b.rate else tokens;
        last_refill = now;
      }

  unfoldable pub refill_bucket : MemoryBucket → ℕ → MemoryBucket
  unfolding less sub_time
  refill_bucket b now =
      let elapsed = sub_time now b.last_refill in
      if not_positive b.rate || not_positive b.period
      then b
      else if b.last_refill == 0
      then record b { last_refill = now }
      else if ltb now b.last_refill
      then b
      else if not_positive elapsed
      then b
      else add_tokens b elapsed now

  abbrev pub one : Float64
  one = m.of_int (pos 1)

  -- `tokens >= 1`
  abbrev pub has_token : Float64 → Bool
  has_token tokens = less one tokens || equal one tokens

  abbrev pub take_token : MemoryBucket → MemoryBucket × Bool
  take_token b =
      if has_token b.tokens then (record b { tokens = m.sub b.tokens one }, true) else (b, false)

  -- One decision about a bucket.
  unfoldable pub allow_bucket : MemoryBucket → ℕ → MemoryBucket × Bool
  unfolding refill_bucket less equal
  allow_bucket b now = take_token (refill_bucket b now)

  abbrev pub allow_found : MemoryLimiter → String → ℕ → Option MemoryBucket → MemoryLimiter × Bool
  allow_found l key now none = (l, true)
  allow_found l key now (some b) =
      let (b', allowed) = allow_bucket b now in (insert key b' l, allowed)

  abbrev allow_live : Option MemoryLimiter → String → ℕ → Option MemoryLimiter × Bool
  allow_live none key now = (none, true)
  allow_live (some l) key now =
      let (l', allowed) = allow_found l key now (lookup key l) in (some l', allowed)

  -- `Allow`: `cancelled` is ctx.Err(), and none is the nil limiter.
  unfoldable pub allow :
      Option Error → Option MemoryLimiter → String → ℕ → Option MemoryLimiter × Result Bool
  unfolding allow_bucket insert lookup
  allow (some e) l key now = (l, err e)
  allow none l key now = let (l', allowed) = allow_live l key now in (l', ok allowed)

  abbrev pub new_bucket : ℤ → ℤ → ℕ → MemoryBucket
  new_bucket rate period now = record {
    rate = rate;
    period = period;
    tokens = m.of_int rate;
    last_refill = now;
  }

  unfoldable pub configure : Option MemoryLimiter → String → ℤ → ℤ → ℕ → Option MemoryLimiter
  unfolding insert erase
  configure none key rate period now = none
  configure (some l) key rate period now =
      if not_positive rate || not_positive period
      then some (erase key l)
      else some (insert key (new_bucket rate period now) l)

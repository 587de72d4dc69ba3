-- ===== src/RateLimit/Burst.antt =====
-- The calls of a key that a limiter grants at one reading of the clock.
use Prim.Native.Nat.{◌^◌}
use ash_jazz_ai_agent.Prelude.{
  ℕ, zero, suc, ◌+◌, ◌≤◌, String, Bool, true, false, not, ◌&&◌, ◌||◌, List, [], ◌∷◌, Option, none,
  some, ◌≡◌, refl, sym, ap, ◌∙◌, subst, arith, if◌then◌else◌, Bool-cases, Option-cases, inl, inr,
}
use ash_jazz_ai_agent.Prelude.Int.{ℤ, pos, not_positive, sub_time}
use ash_jazz_ai_agent.Prelude.Float.{Float64, less}
use ash_jazz_ai_agent.Prelude.Dict.{
  insert, ◌≟◌, ≟_refl, lookup, lookup-insert, lookup-erase, text_key,
}
use ash_jazz_ai_agent.Errors.{Error, Result, ok}
use ash_jazz_ai_agent.RateLimit.{
  Machine, MemoryBucket, MemoryLimiter, new_memory_limiter, refill_bucket, one, has_token,
  take_token, allow_bucket, allow, new_bucket, configure,
}

-- What IEEE 754 says of float64. Rounding keeps the order, so that 1 less than a number is not above
-- anything that the number is not above; and as whole numbers up to 2 ^ 53 are exact, what is not above 0
-- is below 1, and 1 less than what is not above n + 1 is not above n. (A NaN is above nothing.)
pub record IsIeee (m : Machine) : Type 0 where
  pub zero_has_none : (x : Float64) → less (m.of_int (pos 0)) x ≡ false → has_token m x ≡ false
  pub sub_below :
      (bound x : Float64) → less bound x ≡ false → less bound (m.sub x (m.of_int (pos 1))) ≡ false
  pub sub_one :
      (n : ℕ) (x : Float64)
      → suc n ≤ 2 ^ 53
      → less (m.of_int (pos (suc n))) x ≡ false
      → less (m.of_int (pos n)) (m.sub x (m.of_int (pos 1))) ≡ false

less_irrefl : (x : Float64) → less x x ≡ false
unfolding less
less_irrefl x = ground arith

-- What happens to a limiter, one call after another.
pub data Event : Type 0 where
  configured : String → ℤ → ℤ → ℕ → Event
  called : Option Error → String → ℕ → Event

module _ (m : Machine) where
  abbrev pub after_event : Option MemoryLimiter → Event → Option MemoryLimiter
  after_event l (Event.configured key rate period now) = configure m l key rate period now
  after_event l (Event.called cancelled key now) = (allow m cancelled l key now).0

  abbrev pub after_events : Option MemoryLimiter → List Event → Option MemoryLimiter
  after_events l [] = l
  after_events l (event ∷ events) = after_events (after_event l event) events

  abbrev pub grants : Result Bool → ℕ
  grants (ok true) = 1
  grants _ = 0

  -- How many of as many calls of a key are granted while the clock stands still.
  abbrev pub granted : ℕ → Option MemoryLimiter → String → ℕ → ℕ
  granted zero l key now = 0
  granted (suc calls) l key now =
      let (l', allowed) = allow m none l key now in grants allowed + granted calls l' key now

  -- A bucket of a positive rate whose tokens are not above it.
  abbrev is_capped : MemoryBucket → Bool
  is_capped b = not (not_positive b.rate) && not (less (m.of_int b.rate) b.tokens)

  abbrev is_capped_at : Option MemoryBucket → Bool
  is_capped_at none = true
  is_capped_at (some b) = is_capped b

  abbrev is_capped_in : String → Option MemoryLimiter → Bool
  is_capped_in key none = true
  is_capped_in key (some l) = is_capped_at (lookup key l)

  refill_bucket-is_capped :
      (b : MemoryBucket) (now : ℕ) → is_capped b ≡ true → is_capped (refill_bucket m b now) ≡ true
  unfolding refill_bucket
  refill_bucket-is_capped b now c = ground (arith, c, less_irrefl (m.of_int b.rate))

  -- How many of as many calls one bucket grants while the clock stands still.
  drained : ℕ → MemoryBucket → ℕ → ℕ
  drained zero b now = 0
  drained (suc calls) b now =
      let (b', allowed) = allow_bucket m b now in
      let rest = drained calls b' now in if allowed then rest + 1 else rest

  no_time : (now : ℕ) → not_positive (sub_time now now) ≡ true
  unfolding sub_time
  no_time now = ground arith

  with_tokens : MemoryBucket → Float64 → MemoryBucket
  with_tokens b tokens = record b { tokens = tokens }

  -- A second refill at the same reading brings nothing.
  refill_bucket-settled :
      (b : MemoryBucket) (now : ℕ) (tokens : Float64)
      → refill_bucket m (with_tokens (refill_bucket m b now) tokens) now
        ≡ with_tokens (refill_bucket m b now) tokens
  unfolding refill_bucket with_tokens
  refill_bucket-settled b now tokens = ground (arith, no_time now)

  drained-refill_bucket :
      (calls : ℕ) (b : MemoryBucket) (now : ℕ)
      → drained calls b now ≡ drained calls (refill_bucket m b now) now
  unfolding drained allow_bucket with_tokens
  drained-refill_bucket zero b now = refl
  drained-refill_bucket (suc calls) b now =
      let c = refill_bucket m b now in
      let same : refill_bucket m c now ≡ c = refill_bucket-settled b now c.tokens in
      ap
        (λ d.
          let (b', allowed) = take_token m d in
          let rest = drained calls b' now in if allowed then rest + 1 else rest)
        (sym same)

  erased :
      (here : Bool) (held : Option MemoryBucket)
      → is_capped_at held ≡ true
      → is_capped_at (if here then none else held) ≡ true
  erased true held c = refl
  erased false held c = c

  inserted :
      (here : Bool) (b : MemoryBucket) (held : Option MemoryBucket)
      → is_capped b ≡ true
      → is_capped_at held ≡ true
      → is_capped_at (if here then some b else held) ≡ true
  inserted true b held k c = k
  inserted false b held k c = c

  module _ (ieee : IsIeee m) where
    drained-le :
        (calls n : ℕ) (b : MemoryBucket) (now : ℕ) (tokens : Float64)
        → n ≤ 2 ^ 53
        → less (m.of_int (pos n)) tokens ≡ false
        → drained calls (with_tokens (refill_bucket m b now) tokens) now ≤ n
    unfolding drained allow_bucket with_tokens
    drained-le zero n b now tokens small h = omega arith
    drained-le (suc calls) zero b now tokens small h =
        rw (refill_bucket-settled b now tokens)
          (rw (ieee.zero_has_none tokens h) (drained-le calls zero b now tokens small h))
    drained-le (suc calls) (suc n) b now tokens small h = elim (Bool-cases (has_token m tokens)) [
      | inl e ↦ rw (refill_bucket-settled b now tokens) (
          rw e (
            omega (
              arith,
              drained-le calls n b now (m.sub tokens (one m)) (omega (arith, small))
                  (ieee.sub_one n tokens small h),
            )))
      | inr e ↦
          rw (refill_bucket-settled b now tokens)
            (rw e (drained-le calls (suc n) b now tokens small h))
    ]

    take_token-is_capped :
        (b : MemoryBucket) → is_capped b ≡ true → is_capped (take_token m b).0 ≡ true
    take_token-is_capped b c = ground (arith, c, ieee.sub_below (m.of_int b.rate) b.tokens)

    allow_bucket-is_capped :
        (b : MemoryBucket) (now : ℕ)
        → is_capped b ≡ true
        → is_capped (allow_bucket m b now).0 ≡ true
    unfolding allow_bucket
    allow_bucket-is_capped b now c =
        take_token-is_capped (refill_bucket m b now) (refill_bucket-is_capped b now c)

    new_bucket-is_capped :
        (rate period : ℤ) (now : ℕ)
        → not_positive rate ≡ false
        → is_capped (new_bucket m rate period now) ≡ true
    new_bucket-is_capped rate period now h = ground (arith, h, less_irrefl (m.of_int rate))

    configure-is_capped :
        (l : MemoryLimiter) (j key : String) (rate period : ℤ) (now : ℕ)
        → is_capped_in j (some l) ≡ true
        → is_capped_in j (configure m (some l) key rate period now) ≡ true
    unfolding configure
    configure-is_capped l j key rate period now c =
        elim (Bool-cases (not_positive rate || not_positive period)) [
          | inl e ↦ rw e (rw (lookup-erase key j l) (erased (key ≟ j) (lookup j l) c))
          | inr e ↦ rw e (
              rw (lookup-insert key j (new_bucket m rate period now) l) (
                inserted (key ≟ j) (new_bucket m rate period now) (lookup j l)
                  (new_bucket-is_capped rate period now (ground (arith, e))) c))
        ]

    called-is_capped :
        (l : MemoryLimiter) (j key : String) (now : ℕ)
        → is_capped_in key (some l) ≡ true
        → is_capped_in j (some l) ≡ true
        → is_capped_in j (allow m none (some l) key now).0 ≡ true
    unfolding allow
    called-is_capped l j key now k c = elim (Option-cases (lookup key l)) [
      | inl e ↦ rw e c
      | inr (b, e) ↦
          let b' = (allow_bucket m b now).0 in
          rw e (
            rw (lookup-insert key j b' l) (
              inserted (key ≟ j) b' (lookup j l)
                (allow_bucket-is_capped b now (subst (λ o. is_capped_at o ≡ true) e k)) c))
    ]

    after_event-is_capped :
        (event : Event) (l : Option MemoryLimiter)
        → ((j : String) → is_capped_in j l ≡ true)
        → (j : String) → is_capped_in j (after_event l event) ≡ true
    unfolding configure allow
    after_event-is_capped (Event.configured key rate period now) none c j = refl
    after_event-is_capped (Event.configured key rate period now) (some l) c j =
        configure-is_capped l j key rate period now (c j)
    after_event-is_capped (Event.called (some e) key now) l c j = c j
    after_event-is_capped (Event.called none key now) none c j = refl
    after_event-is_capped (Event.called none key now) (some l) c j =
        called-is_capped l j key now (c key) (c j)

    after_events-is_capped :
        (events : List Event) (l : Option MemoryLimiter)
        → ((j : String) → is_capped_in j l ≡ true)
        → (j : String) → is_capped_in j (after_events l events) ≡ true
    after_events-is_capped [] l c j = c j
    after_events-is_capped (event ∷ events) l c j =
        after_events-is_capped events (after_event l event) (after_event-is_capped event l c) j

  counted :
      (allowed : Bool) (rest : ℕ)
      → grants (ok allowed) + rest ≡ (if allowed then rest + 1 else rest)
  counted true rest = omega arith
  counted false rest = omega arith

  refilled-capped :
      (b : MemoryBucket) (now n : ℕ)
      → is_capped b ≡ true
      → b.rate ≡ pos n
      → less (m.of_int (pos n)) (refill_bucket m b now).tokens ≡ false
  unfolding refill_bucket
  refilled-capped b now n c rate =
      subst (λ r. less (m.of_int r) (refill_bucket m b now).tokens ≡ false) rate
        (ground (arith, c, less_irrefl (m.of_int b.rate)))

  drained-rate :
      (ieee : IsIeee m) (calls n total : ℕ) (b : MemoryBucket) (now : ℕ)
      → is_capped b ≡ true
      → b.rate ≡ pos n
      → n ≤ 2 ^ 53
      → total ≡ drained calls (refill_bucket m b now) now
      → total ≤ n
  unfolding with_tokens
  drained-rate ieee calls n total b now c rate small same =
      let within =
        drained-le ieee calls n b now (refill_bucket m b now).tokens small
          (refilled-capped b now n c rate) in
      omega (arith, same, within)

  granted-drained :
      (calls : ℕ) (l : MemoryLimiter) (b : MemoryBucket) (key : String) (now : ℕ)
      → lookup key l ≡ some b
      → granted calls (some l) key now ≡ drained calls b now
  unfolding allow drained
  granted-drained zero l b key now h = refl
  granted-drained (suc calls) l b key now h =
      let (b', allowed) = allow_bucket m b now in
      let held : lookup key (insert key b' l) ≡ some b' =
        lookup-insert key key b' l ∙ rw (≟_refl key) refl in
      rw h (
        rw (granted-drained calls (insert key b' l) b' key now held)
          (counted allowed (drained calls b' now)))

-- Whatever configurations and calls there have been, of a key that is configured with a rate of at most
-- 2 ^ 53 no more calls are granted at one reading of the clock than its rate, however many are made.
pub granted-le :
    (m : Machine) (ieee : IsIeee m) (events : List Event) (key : String) (now calls n : ℕ)
    (l : MemoryLimiter) (b : MemoryBucket)
    → after_events m (some new_memory_limiter) events ≡ some l
    → lookup key l ≡ some b
    → b.rate ≡ pos n
    → n ≤ 2 ^ 53
    → granted m calls (some l) key now ≤ n
unfolding lookup
granted-le m ieee events key now calls n l b reached held rate small =
    let every = after_events-is_capped m ieee events (some new_memory_limiter) (λ j. refl) key in
    let capped : is_capped m b ≡ true =
      subst (λ o. is_capped_at m o ≡ true) held
        (subst (λ o. is_capped_in m key o ≡ true) reached every) in
    drained-rate m ieee calls n (granted m calls (some l) key now) b now capped rate small
      (granted-drained m calls l b key now held ∙ drained-refill_bucket m calls b now)

-- ===== src/Resilience/CircuitBreaker/Recovery.antt =====
-- Calls one after another: how many failures trip the breaker, how long it refuses, and how many
-- successful probes close it again.
use ash_jazz_ai_agent.Prelude.{
  ℕ, suc, ◌+◌, ◌≡◌, refl, ◌∙◌, List, [], ◌∷◌, ◌++◌, true, false, Option, none, some, arith, length,
  ap, if◌then◌else◌,
}
use ash_jazz_ai_agent.Prelude.Int.{pos, ◌≤ℤ◌, ltb_ℤ, sub_time}
use ash_jazz_ai_agent.Errors.{Error}
use ash_jazz_ai_agent.Resilience.CircuitBreaker.{State, CircuitBreaker, to_open, to_half_open, call}
use ash_jazz_ai_agent.Resilience.CircuitBreaker.Invariant.{IsValid}

-- A call of a protected function: the clock before and after it, and how the function ends.
pub record Attempt : Type 0 where
  pub now : ℕ
  pub later : ℕ
  pub cause : Option Error

-- One attempt, counting how often the protected function has run.
pub attempt : CircuitBreaker × ℕ → Attempt → CircuitBreaker × ℕ
unfolding call
attempt (b, runs) a =
    let (b', runs', _) = call a.now a.later none (some (λ n. (suc n, a.cause))) b runs in
    (b', runs')

pub attempts : CircuitBreaker × ℕ → List Attempt → CircuitBreaker × ℕ
attempts w [] = w
attempts w (a ∷ as') = attempts (attempt w a) as'

abbrev pub AllFail : List Attempt → Type 0
AllFail [] = Unit
AllFail (a ∷ as') = ((e : Error) × (a.cause ≡ some e)) × AllFail as'

abbrev pub AllSucceed : List Attempt → Type 0
AllSucceed [] = Unit
AllSucceed (a ∷ as') = (a.cause ≡ none) × AllSucceed as'

-- In CLOSED, failures in a row below the threshold are counted, each function runs, and the breaker
-- stays closed.
pub attempts_below_threshold :
    (as' : List Attempt) (b : CircuitBreaker) (runs : ℕ)
    → b.state ≡ State.closed
    → AllFail as'
    → pos (b.consecutive_failures + length as' + 1) ≤ℤ b.config.failure_threshold
    → let (b', runs') = attempts (b, runs) as' in
      (b'.state ≡ State.closed)
      × (b'.config ≡ b.config)
      × (b'.consecutive_failures ≡ b.consecutive_failures + length as')
      × (runs' ≡ runs + length as')
unfolding attempts attempt
attempts_below_threshold [] b runs c f h = ground arith
attempts_below_threshold (a ∷ as') b runs c f h =
    ground (arith, attempts_below_threshold as' (attempt (b, runs) a).0 (attempt (b, runs) a).1)

attempts-append :
    (xs ys : List Attempt) (w : CircuitBreaker × ℕ)
    → attempts w (xs ++ ys) ≡ attempts (attempts w xs) ys
unfolding attempts
attempts-append [] ys w = refl
attempts-append (x ∷ xs) ys w = attempts-append xs ys (attempt w x)

attempt_at_threshold :
    (b : CircuitBreaker) (runs : ℕ) (a : Attempt) (e : Error)
    → b.state ≡ State.closed
    → a.cause ≡ some e
    → pos (b.consecutive_failures + 1) ≡ b.config.failure_threshold
    → attempt (b, runs) a
      ≡ (to_open (record b { consecutive_failures = b.consecutive_failures + 1 }) a.later, suc runs)
unfolding attempt
attempt_at_threshold b runs a e c f h = ground arith

-- In CLOSED, exactly the failure that completes the threshold trips the breaker: it is OPEN from the
-- moment of that failure, and every function has run.
pub attempts_at_threshold :
    (as' : List Attempt) (a : Attempt) (e : Error) (b : CircuitBreaker) (runs : ℕ)
    → b.state ≡ State.closed
    → AllFail as'
    → a.cause ≡ some e
    → pos (b.consecutive_failures + length as' + 1) ≡ b.config.failure_threshold
    → let (b', runs') = attempts (b, runs) (as' ++ a ∷ []) in
      (b'.state ≡ State.opened) × (b'.opened_at ≡ a.later) × (runs' ≡ runs + length as' + 1)
unfolding to_open attempts
attempts_at_threshold as' a e b runs c f g h =
    let (b', runs') = attempts (b, runs) as' in
    let below = attempts_below_threshold as' b runs c f (ground arith) in
    rw attempts-append (ground (arith, below, attempt_at_threshold b' runs' a e))

abbrev pub AllEarly : CircuitBreaker → List Attempt → Type 0
AllEarly b [] = Unit
AllEarly b (a ∷ as') =
    (ltb_ℤ (sub_time a.now b.opened_at) b.config.recovery_timeout ≡ true) × AllEarly b as'

-- Until the recovery timeout has passed an OPEN breaker refuses every call, runs no function, and
-- stays exactly as it was.
pub attempts_while_open :
    (as' : List Attempt) (b : CircuitBreaker) (runs : ℕ)
    → b.state ≡ State.opened
    → AllEarly b as'
    → attempts (b, runs) as' ≡ (b, runs)
unfolding attempts attempt
attempts_while_open [] b runs o h = refl
attempts_while_open (a ∷ as') b runs o h =
    ap (λ w. attempts w as') (ground arith) ∙ attempts_while_open as' b runs o h.1

probes_succeed :
    (as' : List Attempt) (b : CircuitBreaker) (runs : ℕ)
    → b.state ≡ State.half_open
    → b.half_open_in_flight ≡ 0
    → AllSucceed as'
    → pos (b.half_open_successes + 1) ≤ℤ b.config.half_open_max_probe
    → pos (b.half_open_successes + length as') ≤ℤ b.config.half_open_max_probe
    → let (b', runs') = attempts (b, runs) as' in
      (b'.state ≡ (
        if ltb_ℤ (pos (b.half_open_successes + length as')) b.config.half_open_max_probe
        then State.half_open
        else State.closed))
      × (runs' ≡ runs + length as')
unfolding attempts attempt
probes_succeed [] b runs o z s p h = ground arith
probes_succeed (a ∷ []) b runs o z s p h = ground arith
probes_succeed (a ∷ c ∷ as') b runs o z s p h =
    ground (arith, probes_succeed (c ∷ as') (attempt (b, runs) a).0 (attempt (b, runs) a).1)

-- Once the recovery timeout has passed, each of the next calls in a row runs as a probe; while they
-- succeed the breaker is HALF_OPEN until their number reaches the maximum, and then CLOSED.
pub attempts_after_timeout :
    (a : Attempt) (as' : List Attempt) (b : CircuitBreaker) (runs : ℕ)
    → IsValid b
    → b.state ≡ State.opened
    → ltb_ℤ (sub_time a.now b.opened_at) b.config.recovery_timeout ≡ false
    → AllSucceed (a ∷ as')
    → pos (length as' + 1) ≤ℤ b.config.half_open_max_probe
    → let (b', runs') = attempts (b, runs) (a ∷ as') in
      (b'.state ≡ (
        if ltb_ℤ (pos (length as' + 1)) b.config.half_open_max_probe
        then State.half_open
        else State.closed))
      × (runs' ≡ runs + length as' + 1)
unfolding attempts attempt to_half_open
attempts_after_timeout a [] b runs v o t s h = ground arith
attempts_after_timeout a (c ∷ as') b runs v o t s h =
    ground (arith, probes_succeed (c ∷ as') (attempt (b, runs) a).0 (attempt (b, runs) a).1)

-- A probe that fails sends a HALF_OPEN breaker back to OPEN, from that moment on.
pub attempt_relapse :
    (a : Attempt) (e : Error) (b : CircuitBreaker) (runs : ℕ)
    → b.state ≡ State.half_open
    → pos (b.half_open_in_flight + 1) ≤ℤ b.config.half_open_max_probe
    → a.cause ≡ some e
    → let (b', runs') = attempt (b, runs) a in
      (b'.state ≡ State.opened) × (b'.opened_at ≡ a.later) × (runs' ≡ runs + 1)
unfolding attempt
attempt_relapse a e b runs o h f = ground arith

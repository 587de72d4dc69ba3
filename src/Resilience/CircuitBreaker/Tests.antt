-- ===== src/Resilience/CircuitBreaker/Tests.antt =====
-- Runs of the breaker, and its theorems at concrete inputs.
use ash_jazz_ai_agent.Prelude.{
  ℕ, ◌+◌, ◌≡◌, refl, [], ◌∷◌, true, false, none, some, arith, if◌then◌else◌,
}
use ash_jazz_ai_agent.Prelude.Int.{pos, ltb_ℤ, sub_time}
use ash_jazz_ai_agent.Errors.{Error, sentinel, Sentinel, ok}
use ash_jazz_ai_agent.Resilience.CircuitBreaker.{
  State, Config, CircuitBreaker, new_circuit_breaker, before_call, after_call,
}
use ash_jazz_ai_agent.Resilience.CircuitBreaker.Recovery.{
  Attempt, attempts, attempts_at_threshold, attempts_while_open, attempts_after_timeout,
}
use ash_jazz_ai_agent.Resilience.CircuitBreaker.Concurrent.{
  World, Reach, here, next, admit, finish, start, IsSound, IsAdmitted, Reach-IsSound,
  Reach-IsAdmitted,
}

abbrev config : Config
config = record {
  failure_threshold = pos 2;
  recovery_timeout = pos 10;
  half_open_max_probe = pos 1;
}

abbrev down : Error
down = sentinel Sentinel.upstream

-- CLOSED with no failure, OPEN since 100, and HALF_OPEN with its one probe running.
abbrev fresh : CircuitBreaker
fresh = record {
  config = config;
  state = State.closed;
  consecutive_failures = 0;
  opened_at = 0;
  half_open_successes = 0;
  half_open_in_flight = 0;
}

abbrev tripped : CircuitBreaker
tripped = record fresh { state = State.opened; opened_at = 100 }

abbrev probing : CircuitBreaker
probing = record fresh { state = State.half_open; opened_at = 100; half_open_in_flight = 1 }

abbrev fails : ℕ → ℕ → Attempt
fails now later = record { now = now; later = later; cause = some down }

abbrev succeeds : ℕ → ℕ → Attempt
succeeds now later = record { now = now; later = later; cause = none }

fresh_lem : new_circuit_breaker config ≡ fresh
unfolding new_circuit_breaker
fresh_lem = refl

refuse_then_probe :
    ((before_call tripped 109).0 ≡ tripped) × (before_call tripped 110 ≡ (probing, ok true))
unfolding before_call sub_time
refuse_then_probe = (refl, refl)

attempts_at_threshold_example :
    let (b', runs') = attempts (fresh, 0) (fails 1 2 ∷ fails 3 4 ∷ []) in
    (b'.state ≡ State.opened) × (b'.opened_at ≡ 4) × (runs' ≡ 0 + 1 + 1)
attempts_at_threshold_example =
    attempts_at_threshold (fails 1 2 ∷ []) (fails 3 4) down fresh 0 refl ((down, refl), tt) refl
      refl

attempts_while_open_example :
    attempts (tripped, 5) (succeeds 101 102 ∷ fails 109 111 ∷ []) ≡ (tripped, 5)
unfolding sub_time
attempts_while_open_example =
    attempts_while_open (succeeds 101 102 ∷ fails 109 111 ∷ []) tripped 5 refl (refl, (refl, tt))

attempts_after_timeout_example :
    let (b', runs') = attempts (tripped, 5) (succeeds 110 112 ∷ []) in
    (b'.state ≡ (if ltb_ℤ (pos (0 + 1)) (pos 1) then State.half_open else State.closed))
    × (runs' ≡ 5 + 0 + 1)
unfolding sub_time
attempts_after_timeout_example =
    attempts_after_timeout (succeeds 110 112) [] tripped 5 (ground arith) refl refl (refl, tt)
      (omega arith)

-- One call is admitted and fails.
abbrev failed_once : World
failed_once = record {
  breaker = after_call (new_circuit_breaker config) 7 false (some down);
  running = [];
}

failed_once_reached : Reach (start config) failed_once
unfolding before_call new_circuit_breaker
failed_once_reached =
    next (next here (admit 5 (new_circuit_breaker config) false refl))
      (finish 7 false (some down) [] [] refl)

Reach-IsSound_example : IsSound failed_once
Reach-IsSound_example = Reach-IsSound config failed_once failed_once_reached

Reach-IsAdmitted_example : IsAdmitted (before_call failed_once.breaker 20)
unfolding after_call new_circuit_breaker sub_time
Reach-IsAdmitted_example =
    Reach-IsAdmitted config failed_once 20 failed_once_reached refl (omega arith)

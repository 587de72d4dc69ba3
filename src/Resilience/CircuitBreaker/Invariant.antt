-- ===== src/Resilience/CircuitBreaker/Invariant.antt =====
-- The invariant of the breaker, which every critical section keeps, whatever the order.
use ash_jazz_ai_agent.Prelude.{ℕ, ◌+◌, Bool, true, false, Option, none, some, arith}
use ash_jazz_ai_agent.Prelude.Int.{pos, ◌≤ℤ◌}
use ash_jazz_ai_agent.Errors.{Error}
use ash_jazz_ai_agent.Resilience.CircuitBreaker.{
  State, Config, CircuitBreaker, new_circuit_breaker, before_call, after_call,
}

-- One of the three states that the package names.
abbrev pub IsKnown : State → Type 0
IsKnown (State.other s) = ⊥
IsKnown _ = Unit

-- The counters stay below the limits that empty them, so none of them can overflow.
pub record IsValid (b : CircuitBreaker) : Type 0 where
  pub known : IsKnown b.state
  pub threshold : pos (b.consecutive_failures + 1) ≤ℤ b.config.failure_threshold
  pub timeout : pos 1 ≤ℤ b.config.recovery_timeout
  pub successes : pos (b.half_open_successes + 1) ≤ℤ b.config.half_open_max_probe
  pub probes : pos b.half_open_in_flight ≤ℤ b.config.half_open_max_probe

pub new_circuit_breaker-IsValid : (c : Config) → IsValid (new_circuit_breaker c)
unfolding new_circuit_breaker
new_circuit_breaker-IsValid c = ground arith

pub before_call-IsValid : (b : CircuitBreaker) (now : ℕ) → IsValid b → IsValid (before_call b now).0
unfolding before_call
before_call-IsValid b now v = ground arith

pub after_call-IsValid :
    (b : CircuitBreaker) (now : ℕ) (probe : Bool) (cause : Option Error)
    → IsValid b
    → IsValid (after_call b now probe cause)
unfolding after_call
after_call-IsValid b now true none v = ground arith
after_call-IsValid b now true (some e) v = ground arith
after_call-IsValid b now false none v = ground arith
after_call-IsValid b now false (some e) v = ground arith

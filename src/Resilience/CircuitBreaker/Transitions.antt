-- ===== src/Resilience/CircuitBreaker/Transitions.antt =====
-- The state machine of the breaker: CLOSED, OPEN, HALF_OPEN and back, as the package documents it.
use ash_jazz_ai_agent.Prelude.{ℕ, ◌≡◌, Bool, true, false, Option, none, some, arith, ◌≢◌}
use ash_jazz_ai_agent.Errors.{Error, Sentinel, Result, ok, err, is}
use ash_jazz_ai_agent.Resilience.CircuitBreaker.{State, CircuitBreaker, before_call, after_call}
use ash_jazz_ai_agent.Resilience.CircuitBreaker.Invariant.{IsValid}

-- The moves that the package's documentation draws, a state's staying as it is among them.
abbrev pub edge : State → State → Bool
edge State.closed State.closed = true
edge State.closed State.opened = true
edge State.opened State.opened = true
edge State.opened State.half_open = true
edge State.half_open State.half_open = true
edge State.half_open State.closed = true
edge State.half_open State.opened = true
edge _ _ = false

-- A call that the breaker has admitted carries the flag of the state that admitted it.
abbrev pub flag_fits : State → Bool → Bool
flag_fits State.closed false = true
flag_fits State.half_open true = true
flag_fits _ _ = false

abbrev pub Admits : CircuitBreaker × Result Bool → Type 0
Admits (b, ok probe) = flag_fits b.state probe ≡ true
Admits (b, err e) = (is e Sentinel.circuit_open ≡ true) × (b.state ≢ State.closed)

-- Admission moves a valid breaker along a documented edge; what it admits carries the flag of the
-- state that it leaves behind, and what it refuses fails with ErrCircuitOpen, never in CLOSED.
pub before_call-edge :
    (b : CircuitBreaker) (now : ℕ)
    → IsValid b
    → (edge b.state (before_call b now).0.state ≡ true) × Admits (before_call b now)
unfolding before_call is
before_call-edge b now v = ground arith

-- The end of a call whose flag still fits the state moves a valid breaker along a documented edge.
pub after_call-edge :
    (b : CircuitBreaker) (now : ℕ) (probe : Bool) (cause : Option Error)
    → flag_fits b.state probe ≡ true
    → edge b.state (after_call b now probe cause).state ≡ true
unfolding after_call
after_call-edge b now true none f = ground arith
after_call-edge b now true (some e) f = ground arith
after_call-edge b now false none f = ground arith
after_call-edge b now false (some e) f = ground arith

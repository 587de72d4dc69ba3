-- ===== src/Resilience/CircuitBreaker.antt =====
-- pkg/ai/resilience/circuit_breaker.go, with State and Config of resilience.go. Each definition is
-- one critical section under the breaker's lock; the clock's reading in it is an argument. The
-- counters are ℕ: they start at 0, and the only decrement is guarded.
pub mod Invariant
pub mod Transitions
pub mod Recovery
pub mod Concurrent
pub mod Tests
use ash_jazz_ai_agent.Prelude.{
  ℕ, ◌+◌, ◌-◌, ◌*◌, ◌^◌, String, Bool, true, false, ◌≡◌, [], ◌∷◌, Option, none, some, ltb,
  if◌then◌else◌,
}
use ash_jazz_ai_agent.Prelude.Int.{ℤ, pos, ltb_ℤ, leb_ℤ, not_positive, sub_time}
use ash_jazz_ai_agent.Errors.{Error, Sentinel, sentinel, errorf, wrapf, Result, ok, err}

-- A state is a string; any text but the three constants is `other`.
pub data State : Type 0 where
  closed opened half_open : State
  other : String → State

abbrev pub state_text : State → String
state_text State.closed = "closed"
state_text State.opened = "open"
state_text State.half_open = "half_open"
state_text (State.other s) = s

-- The fields of Config but for the clock; durations in nanoseconds.
pub record Config : Type 0 where
  pub failure_threshold : ℤ
  pub recovery_timeout : ℤ
  pub half_open_max_probe : ℤ

abbrev pub default_failure_threshold : ℤ
default_failure_threshold = pos 1

abbrev pub default_recovery_timeout : ℤ
default_recovery_timeout = pos 30_000_000_000

abbrev pub default_half_open_max_probe : ℤ
default_half_open_max_probe = pos 1

pub normalize_config : Config → Config
normalize_config c = record {
  failure_threshold =
      if not_positive c.failure_threshold then default_failure_threshold else c.failure_threshold;
  recovery_timeout =
      if not_positive c.recovery_timeout then default_recovery_timeout else c.recovery_timeout;
  half_open_max_probe =
      if not_positive c.half_open_max_probe
      then default_half_open_max_probe
      else c.half_open_max_probe;
}

pub record CircuitBreaker : Type 0 where
  pub config : Config
  pub state : State
  pub consecutive_failures : ℕ
  pub opened_at : ℕ
  pub half_open_successes : ℕ
  pub half_open_in_flight : ℕ

pub new_circuit_breaker : Config → CircuitBreaker
unfolding normalize_config
new_circuit_breaker c = record {
  config = normalize_config c;
  state = State.closed;
  consecutive_failures = 0;
  opened_at = 0;
  half_open_successes = 0;
  half_open_in_flight = 0;
}

pub to_closed : CircuitBreaker → CircuitBreaker
to_closed b = record b {
  state = State.closed;
  consecutive_failures = 0;
  opened_at = 0;
  half_open_successes = 0;
  half_open_in_flight = 0;
}

pub to_open : CircuitBreaker → ℕ → CircuitBreaker
to_open b now = record b {
  state = State.opened;
  opened_at = now;
  consecutive_failures = 0;
  half_open_successes = 0;
  half_open_in_flight = 0;
}

pub to_half_open : CircuitBreaker → CircuitBreaker
to_half_open b = record b {
  state = State.half_open;
  consecutive_failures = 0;
  half_open_successes = 0;
  half_open_in_flight = 0;
}

abbrev pub probes_exhausted : Error
probes_exhausted =
    wrapf "circuit breaker half-open probes exhausted: %w" [] (sentinel Sentinel.circuit_open)

abbrev pub rejected : State → Error
rejected s =
    wrapf "circuit breaker state %q: %w" (state_text s ∷ []) (sentinel Sentinel.circuit_open)

abbrev pub unknown_state : State → Error
unknown_state s = errorf "unknown circuit breaker state %q" (state_text s ∷ [])

pub reserve_half_open_probe : CircuitBreaker → CircuitBreaker × Result Bool
reserve_half_open_probe b =
    if leb_ℤ b.config.half_open_max_probe (pos b.half_open_in_flight)
    then (b, err probes_exhausted)
    else (record b { half_open_in_flight = b.half_open_in_flight + 1 }, ok true)

-- The switch on the state: the flag says that the call is a half-open probe.
before_call_in : State → CircuitBreaker → ℕ → CircuitBreaker × Result Bool
unfolding to_half_open reserve_half_open_probe
before_call_in State.closed b now = (b, ok false)
before_call_in State.opened b now =
    if ltb_ℤ (sub_time now b.opened_at) b.config.recovery_timeout
    then (b, err (rejected b.state))
    else reserve_half_open_probe (to_half_open b)
before_call_in State.half_open b now = reserve_half_open_probe b
before_call_in (State.other s) b now = (b, err (unknown_state b.state))

unfoldable pub before_call : CircuitBreaker → ℕ → CircuitBreaker × Result Bool
unfolding before_call_in
before_call b now = before_call_in b.state b now

count_success : CircuitBreaker → CircuitBreaker
unfolding to_closed
count_success b =
    let b' = record b { half_open_successes = b.half_open_successes + 1 } in
    if leb_ℤ b'.config.half_open_max_probe (pos b'.half_open_successes) then to_closed b' else b'

pub finish_half_open_probe : CircuitBreaker → ℕ → Option Error → CircuitBreaker
unfolding to_open count_success
finish_half_open_probe b now cause =
    let released : CircuitBreaker =
      if ltb 0 b.half_open_in_flight
      then record b { half_open_in_flight = b.half_open_in_flight - 1 }
      else b in
    elim cause [ some _ ↦ to_open released now | none ↦ count_success released ]

count_failure : CircuitBreaker → ℕ → CircuitBreaker
unfolding to_open
count_failure b now =
    let b' = record b { consecutive_failures = b.consecutive_failures + 1 } in
    if leb_ℤ b'.config.failure_threshold (pos b'.consecutive_failures) then to_open b' now else b'

unfoldable pub after_call : CircuitBreaker → ℕ → Bool → Option Error → CircuitBreaker
unfolding finish_half_open_probe count_failure
after_call b now true cause = finish_half_open_probe b now cause
after_call b now false none = record b { consecutive_failures = 0 }
after_call b now false (some e) = count_failure b now

abbrev pub function_required : Error
function_required = errorf "circuit breaker protected function is required" []

-- `Call` with nothing else using the breaker meanwhile: `cancelled` is ctx.Err(), `fn` is none for
-- nil, and acts on the caller's state; `now` and `later` are the clock before and after it.
module _ {ℓ} {S : Type ℓ} where
  finish_call :
      ℕ
      → (S → S × Option Error)
      → S
      → CircuitBreaker × Result Bool
      → CircuitBreaker × S × Option Error
  unfolding after_call
  finish_call later fn s (b, err e) = (b, s, some e)
  finish_call later fn s (b, ok probe) =
      let (s', cause) = fn s in (after_call b later probe cause, s', cause)

  call_in :
      ℕ
      → ℕ
      → Option Error
      → Option (S → S × Option Error)
      → CircuitBreaker
      → S
      → CircuitBreaker × S × Option Error
  unfolding before_call finish_call
  call_in now later (some e) fn b s = (b, s, some e)
  call_in now later none none b s = (b, s, some function_required)
  call_in now later none (some fn) b s = finish_call later fn s (before_call b now)

  unfoldable pub call :
      ℕ
      → ℕ
      → Option Error
      → Option (S → S × Option Error)
      → CircuitBreaker
      → S
      → CircuitBreaker × S × Option Error
  unfolding call_in
  call now later cancelled fn b s = call_in now later cancelled fn b s

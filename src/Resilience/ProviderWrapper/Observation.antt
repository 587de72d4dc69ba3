-- ===== src/Resilience/ProviderWrapper/Observation.antt =====
-- What the trace of a provider call says.
use ash_jazz_ai_agent.Prelude.{◌≡◌, refl, String, Bool, true, false, Option, none, some, ◌||◌, ◌&&◌}
use ash_jazz_ai_agent.Prelude.Text.{is_empty}
use ash_jazz_ai_agent.Errors.{Error, Sentinel, is}
use ash_jazz_ai_agent.Obs.Identity.{CorrelationIdentity}
use ash_jazz_ai_agent.Obs.Trace.{new_trace}
use ash_jazz_ai_agent.Resilience.CircuitBreaker.{CircuitBreaker, state_text}
use ash_jazz_ai_agent.Resilience.OutcomeTrace.{
  ProviderOutcomeObservation, classify_provider_outcome, outcome_trace, is_degraded, failure_by,
  success_by, classify,
}

abbrev pub is_none : {A : Type 0} → Option A → Bool
is_none none = true
is_none (some a) = false

abbrev pub is_caused_by : Option Error → Sentinel → Bool
is_caused_by none t = false
is_caused_by (some e) t = is e t

failure_by-fields :
    (limited upstream : Bool)
    → (is_empty (failure_by limited upstream).failure_status ≡ false)
      × ((failure_by limited upstream).rate_limited ≡ limited)
      × ((failure_by limited upstream).degraded ≡ false)
failure_by-fields true true = (refl, refl, refl)
failure_by-fields true false = (refl, refl, refl)
failure_by-fields false true = (refl, refl, refl)
failure_by-fields false false = (refl, refl, refl)

success_by-fields :
    (degraded : Bool)
    → (is_empty (success_by degraded).failure_status ≡ true)
      × ((success_by degraded).rate_limited ≡ false)
      × ((success_by degraded).degraded ≡ degraded)
success_by-fields true = (refl, refl, refl)
success_by-fields false = (refl, refl, refl)

classify-fields :
    (c : Option Error) (actual requested : String)
    → (is_empty (classify c actual requested).failure_status ≡ is_none c)
      × ((classify c actual requested).rate_limited ≡ is_caused_by c Sentinel.rate_limit)
      × ((classify c actual requested).degraded ≡ (is_none c && is_degraded actual requested))
classify-fields none actual requested =
    let s = success_by-fields (is_degraded actual requested) in (s.0, s.1, s.2)
classify-fields (some e) actual requested =
    let limited = is e Sentinel.rate_limit in
    let upstream = is e Sentinel.upstream || is e Sentinel.circuit_open in
    let f = failure_by-fields limited upstream in (f.0, f.1, f.2)

-- A trace names a failure exactly when the call had an error; it says rate limited exactly when the
-- error is a rate limit, and degraded only of a call without error that another model served; and
-- it carries the breaker's state after the call, and neither prompt nor answer.
pub outcome_trace-fields :
    (i : CorrelationIdentity) (feature provider : String) (b : CircuitBreaker)
    (o : ProviderOutcomeObservation)
    → let t = outcome_trace i feature provider b o in
      (is_empty t.failure_status ≡ is_none o.cause)
      × (t.rate_limited ≡ is_caused_by o.cause Sentinel.rate_limit)
      × (t.degraded ≡ (is_none o.cause && is_degraded o.actual_model o.requested_model))
      × (t.circuit_state ≡ state_text b.state)
      × (t.query_hash ≡ "")
      × (t.prompt_hash ≡ "")
unfolding outcome_trace new_trace classify_provider_outcome
outcome_trace-fields i feature provider b o =
    let c = classify-fields o.cause o.actual_model o.requested_model in
    (c.0, c.1, c.2, refl, refl, refl)

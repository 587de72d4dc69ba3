-- ===== src/Resilience/OutcomeTrace.antt =====
-- What pkg/ai/resilience/provider_wrapper.go reports of a provider call: the classification of its
-- outcome, and the trace built from it.
use ash_jazz_ai_agent.Prelude.{
  ℕ, String, Bool, true, false, not, ◌&&◌, ◌||◌, [], ◌∷◌, Option, none, some,
}
use ash_jazz_ai_agent.Prelude.Int.{pos, sub_time, milliseconds}
use ash_jazz_ai_agent.Prelude.Text.{is_empty, text_beq}
use ash_jazz_ai_agent.Errors.{Error, Sentinel, is}
use ash_jazz_ai_agent.Llm.{ChatRequest, ChatResponse}
use ash_jazz_ai_agent.Obs.Identity.{CorrelationIdentity}
use ash_jazz_ai_agent.Obs.Trace.{
  Trace, ObservationType, FailureStatus, failure_text, new_trace, with_correlation_identity,
  with_observation_type, with_model, with_latency, with_outcome,
}
use ash_jazz_ai_agent.Resilience.CircuitBreaker.{CircuitBreaker, state_text}

pub record Outcome : Type 0 where
  pub outcome_status : String
  pub failure_status : String
  pub degraded : Bool
  pub rate_limited : Bool

pub record ProviderOutcomeObservation : Type 0 where
  pub requested_model : String
  pub actual_model : String
  pub cause : Option Error
  pub started_at : ℕ
  pub ended_at : ℕ

abbrev failure_outcome : FailureStatus → Bool → Outcome
failure_outcome status rate_limited = record {
  outcome_status = "failure";
  failure_status = failure_text status;
  degraded = false;
  rate_limited = rate_limited;
}

-- Is it a rate limit, and else, is it an upstream failure or an open breaker?
abbrev pub failure_by : Bool → Bool → Outcome
failure_by true _ = failure_outcome FailureStatus.rate_limit true
failure_by false true = failure_outcome FailureStatus.upstream false
failure_by false false = failure_outcome FailureStatus.caller_error false

unfoldable pub is_degraded : String → String → Bool
is_degraded actual requested =
    not (is_empty actual) && (not (is_empty requested) && not (text_beq actual requested))

abbrev pub success_by : Bool → Outcome
success_by true = record {
  outcome_status = "degraded";
  failure_status = "";
  degraded = true;
  rate_limited = false;
}
success_by false = record {
  outcome_status = "success";
  failure_status = "";
  degraded = false;
  rate_limited = false;
}

abbrev pub classify : Option Error → String → String → Outcome
classify (some e) actual requested =
    failure_by (is e Sentinel.rate_limit) (is e Sentinel.upstream || is e Sentinel.circuit_open)
classify none actual requested = success_by (is_degraded actual requested)

unfoldable pub classify_provider_outcome : ProviderOutcomeObservation → Outcome
classify_provider_outcome o = classify o.cause o.actual_model o.requested_model

abbrev pub requested_model : Option ChatRequest → String
requested_model none = ""
requested_model (some req) = req.model

abbrev pub actual_model : Option ChatResponse → String
actual_model none = ""
actual_model (some response) = response.model

unfoldable pub outcome_trace :
    CorrelationIdentity → String → String → CircuitBreaker → ProviderOutcomeObservation → Trace
unfolding classify_provider_outcome
outcome_trace identity feature provider_name b o =
    let outcome = classify_provider_outcome o in
    let trace = new_trace identity.ai_trace_id feature o.ended_at (
      some (with_correlation_identity identity)
      ∷ some (with_observation_type ObservationType.generation)
      ∷ some (with_model o.actual_model)
      ∷ some (with_latency (pos 0) (milliseconds (sub_time o.ended_at o.started_at)))
      ∷ some (with_outcome outcome.outcome_status)
      ∷ []) in
    record trace {
      failure_status = outcome.failure_status;
      provider_name = provider_name;
      requested_model = o.requested_model;
      circuit_state = state_text b.state;
      degraded = outcome.degraded;
      rate_limited = outcome.rate_limited;
    }

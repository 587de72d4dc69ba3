-- ===== src/Resilience/ProviderWrapper.antt =====
-- pkg/ai/resilience/provider_wrapper.go. The wrapper's breaker is passed as state; `W` is the world
-- that the provider and the tracer act on. The readings of the clocks are arguments, in order.
pub mod Protection
pub mod Observation
pub mod Tests
use ash_jazz_ai_agent.Prelude.{
  ℕ, String, Bool, true, false, not, ◌&&◌, ◌||◌, List, [], ◌∷◌, Option, none, some, if◌then◌else◌,
}
use ash_jazz_ai_agent.Prelude.Int.{ℤ, pos, sub_time, milliseconds}
use ash_jazz_ai_agent.Prelude.Text.{is_empty, is_blank, text_beq}
use ash_jazz_ai_agent.Errors.{Error, Sentinel, errorf, is}
use ash_jazz_ai_agent.Llm.{
  ChatRequest, ChatResponse, Provider, ProviderCapabilities, no_capabilities,
}
use ash_jazz_ai_agent.Obs.Identity.{
  Context, CorrelationIdentity, correlation_identity_from_context, apply_option,
}
use ash_jazz_ai_agent.Obs.Trace.{
  Trace, Tracer, ObservationType, FailureStatus, failure_text, new_trace, with_correlation_identity,
  with_observation_type, with_model, with_latency, with_outcome,
  record_with_export_failure_protection,
}
use ash_jazz_ai_agent.Resilience.OutcomeTrace.{
  Outcome, ProviderOutcomeObservation, classify_provider_outcome, requested_model, actual_model,
  outcome_trace,
}
use ash_jazz_ai_agent.Resilience.CircuitBreaker.{CircuitBreaker, state_text, call}

-- The interface values of the Go struct may be nil; the clock's readings are arguments of the calls.
pub record ProviderWrapper (W Stream : Type 0) : Type 0 where
  pub provider : Option (Provider W Stream)
  pub has_breaker : Bool
  pub tracer : Option (Tracer W)
  pub feature : String

-- The readings of the wrapper's clock and of the breaker's, in the order of one call.
pub record Times : Type 0 where
  pub started : ℕ
  pub admitted : ℕ
  pub finished : ℕ
  pub ended : ℕ

abbrev wrapper_required : Error
wrapper_required = errorf "provider wrapper is required" []

abbrev provider_required : Error
provider_required = errorf "provider wrapper provider is required" []

abbrev breaker_required : Error
breaker_required = errorf "provider wrapper circuit breaker is required" []

-- Only an upstream failure is reported to the breaker.
abbrev pub keep_upstream : Option Error → Option Error
keep_upstream none = none
keep_upstream (some e) = if is e Sentinel.upstream then some e else none

abbrev pub or_original : Option Error → Option Error → Option Error
or_original none original = original
or_original (some e) original = some e

-- The closure of `call`, on what it captures: the world, the response it got, and originalErr.
abbrev guarded :
    {W A : Type 0}
    → (W → W × Option A × Option Error)
    → W × Option A × Option Error
    → (W × Option A × Option Error) × Option Error
guarded fn (w, _, _) = let (w', got, e) = fn w in ((w', got, e), keep_upstream e)

-- `p.call` with providerCallResult.err: what the breaker reports, or else what the provider said.
unfoldable pub protected_call :
    {W A : Type 0}
    → Times
    → Context
    → (W → W × Option A × Option Error)
    → CircuitBreaker
    → W
    → CircuitBreaker × W × Option A × Option Error
unfolding call is
protected_call times ctx fn b w =
    let (b', captured, breaker_err) =
      call times.admitted times.finished ctx.err (some (guarded fn)) b (w, none, none) in
    (b', captured.0, captured.1, or_original breaker_err captured.2)

-- A response is returned only without an error.
abbrev pub returned : {A : Type 0} → Option A → Option Error → Option A
returned got (some e) = none
returned got none = got

module _ {W Stream : Type 0} where
  abbrev provider_name : Option (Provider W Stream) → String
  provider_name none = ""
  provider_name (some provider) = provider.name

  -- A nil wrapper has the empty name and no capability.
  unfoldable pub name : Option (ProviderWrapper W Stream) → String
  name none = ""
  name (some p) = provider_name p.provider

  abbrev provider_capabilities : Option (Provider W Stream) → String → ProviderCapabilities
  provider_capabilities none model = no_capabilities
  provider_capabilities (some provider) model = provider.capabilities model

  unfoldable pub capabilities : Option (ProviderWrapper W Stream) → String → ProviderCapabilities
  capabilities none model = no_capabilities
  capabilities (some p) model = provider_capabilities p.provider model

  abbrev record_identified :
      ProviderWrapper W Stream
      → CircuitBreaker
      → ProviderOutcomeObservation
      → Option CorrelationIdentity
      → W
      → W
  record_identified p b o none w = w
  record_identified p b o (some i) w =
      if is_blank i.ai_trace_id
      then w
      else (record_with_export_failure_protection p.tracer
          (outcome_trace i p.feature (name (some p)) b o) w).0

  -- Nothing is recorded without a tracer, a feature and the name of an AI trace.
  unfoldable pub record_outcome :
      ProviderWrapper W Stream → CircuitBreaker → Context → ProviderOutcomeObservation → W → W
  unfolding outcome_trace name record_with_export_failure_protection
      correlation_identity_from_context
  record_outcome p b ctx o w = elim p.tracer [
    | none ↦ w
    | some _ ↦
        if is_blank p.feature
        then w
        else record_identified p b o (correlation_identity_from_context (some ctx)) w
  ]

  -- The body that Chat and ChatStream share; `model` reads the actual model of a response.
  unfoldable pub run_protected :
      {A : Type 0}
      → ProviderWrapper W Stream
      → (Option A → String)
      → Times
      → Context
      → Option ChatRequest
      → (W → W × Option A × Option Error)
      → CircuitBreaker
      → W
      → CircuitBreaker × W × Option A × Option Error
  unfolding protected_call record_outcome
  run_protected p model times ctx req fn b w =
      let (b', w', got, e) = protected_call times ctx fn b w in
      let o : ProviderOutcomeObservation = record {
        requested_model = requested_model req;
        actual_model = model got;
        cause = e;
        started_at = times.started;
        ended_at = times.ended;
      } in
      (b', record_outcome p b' ctx o w', returned got e, e)

  -- `validate` guards both calls; behind it the provider is there.
  abbrev validated :
      {A : Type 0}
      → Option (ProviderWrapper W Stream)
      → (ProviderWrapper W Stream
          → Provider W Stream
          → CircuitBreaker × W × Option A × Option Error)
      → CircuitBreaker
      → W
      → CircuitBreaker × W × Option A × Option Error
  validated none body b w = (b, w, none, some wrapper_required)
  validated (some p) body b w = elim p.provider [
    | none ↦ (b, w, none, some provider_required)
    | some provider ↦ if p.has_breaker then body p provider else (b, w, none, some breaker_required)
  ]

  unfoldable pub chat :
      Option (ProviderWrapper W Stream)
      → Times
      → Context
      → Option ChatRequest
      → CircuitBreaker
      → W
      → CircuitBreaker × W × Option ChatResponse × Option Error
  unfolding run_protected
  chat wrapper times ctx req b w =
      validated wrapper
        (λ p provider. run_protected p actual_model times ctx req (provider.chat req) b w) b w

  -- The streaming call reports no actual model.
  unfoldable pub chat_stream :
      Option (ProviderWrapper W Stream)
      → Times
      → Context
      → Option ChatRequest
      → CircuitBreaker
      → W
      → CircuitBreaker × W × Option Stream × Option Error
  unfolding run_protected
  chat_stream wrapper times ctx req b w =
      validated wrapper
        (λ p provider. run_protected p (λ _. "") times ctx req (provider.chat_stream req) b w) b w

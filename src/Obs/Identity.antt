-- ===== src/Obs/Identity.antt =====
-- pkg/ai/obs/correlation.go. Values are immutable, so that an option is a function on identities.
use ash_jazz_ai_agent.Prelude.{String, List, [], ◌∷◌, Option, none, some}
use ash_jazz_ai_agent.Errors.{Error}

pub record CorrelationIdentity : Type 0 where
  pub request_id : String
  pub service_trace_id : String
  pub span_id : String
  pub ai_trace_id : String
  pub session_id : String
  pub eval_run_id : String

abbrev pub CorrelationOption : Type 0
CorrelationOption = CorrelationIdentity → CorrelationIdentity

-- A nil option is skipped.
abbrev pub apply_option {ℓ} : {A : Type ℓ} → Option (A → A) → A → A
apply_option none a = a
apply_option (some f) a = f a

unfoldable pub apply_correlation_options :
    CorrelationIdentity → List (Option CorrelationOption) → CorrelationIdentity
apply_correlation_options base [] = base
apply_correlation_options base (o ∷ os) = apply_correlation_options (apply_option o base) os

abbrev pub empty_identity : CorrelationIdentity
empty_identity = record {
  request_id = "";
  service_trace_id = "";
  span_id = "";
  ai_trace_id = "";
  session_id = "";
  eval_run_id = "";
}

unfoldable pub new_correlation_identity :
    String → List (Option CorrelationOption) → CorrelationIdentity
unfolding apply_correlation_options
new_correlation_identity request_id options =
    apply_correlation_options (record empty_identity { request_id = request_id }) options

abbrev pub with_service_span : String → String → CorrelationOption
with_service_span service_trace_id span_id i = record i {
  service_trace_id = service_trace_id;
  span_id = span_id;
}

abbrev pub with_ai_trace_id : String → CorrelationOption
with_ai_trace_id ai_trace_id i = record i { ai_trace_id = ai_trace_id }

abbrev pub with_session_id : String → CorrelationOption
with_session_id session_id i = record i { session_id = session_id }

abbrev pub with_eval_run_id : String → CorrelationOption
with_eval_run_id eval_run_id i = record i { eval_run_id = eval_run_id }

-- What the components read of a context.Context: ctx.Err(), and the identity under the private key.
pub record Context : Type 0 where
  pub err : Option Error
  pub identity : Option CorrelationIdentity

-- A nil context is replaced by context.Background().
unfoldable pub context_with_correlation_identity : Option Context → CorrelationIdentity → Context
context_with_correlation_identity none i = record { err = none; identity = some i }
context_with_correlation_identity (some ctx) i = record ctx { identity = some i }

unfoldable pub correlation_identity_from_context : Option Context → Option CorrelationIdentity
correlation_identity_from_context none = none
correlation_identity_from_context (some ctx) = ctx.identity

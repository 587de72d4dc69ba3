-- ===== src/Obs/Trace.antt =====
-- pkg/ai/obs/obs.go, trace_helpers.go, failure_trace.go, observation_type.go and export_failure.go.
-- The helpers' copies of slices and pointers are the identity on values.
use ash_jazz_ai_agent.Prelude.{
  ℕ, String, Bool, false, List, [], ◌∷◌, Option, none, some, if◌then◌else◌,
}
use ash_jazz_ai_agent.Prelude.Int.{ℤ, pos}
use ash_jazz_ai_agent.Prelude.Text.{is_empty, is_blank}
use ash_jazz_ai_agent.Errors.{Error, errorf}
use ash_jazz_ai_agent.Json.{Float64}
use ash_jazz_ai_agent.Obs.Identity.{CorrelationIdentity, apply_option}
use ash_jazz_ai_agent.Obs.Summary.{SafeSummary, empty_summary}

-- An observation type is a string; any text but the five constants is `other`.
pub data ObservationType : Type 0 where
  generation retriever tool agent evaluator : ObservationType
  other : String → ObservationType

abbrev pub observation_text : ObservationType → String
observation_text ObservationType.generation = "generation"
observation_text ObservationType.retriever = "retriever"
observation_text ObservationType.tool = "tool"
observation_text ObservationType.agent = "agent"
observation_text ObservationType.evaluator = "evaluator"
observation_text (ObservationType.other s) = s

-- `ValidateObservationType`
unfoldable pub validate_observation_type : ObservationType → Option Error
validate_observation_type (ObservationType.other s) =
    if is_blank s
    then some (errorf "observation type is empty" [])
    else some (errorf "unknown observation type %q" (s ∷ []))
validate_observation_type _ = none

pub data FailureStatus : Type 0 where
  timeout rate_limit upstream caller_error retrieval_miss : FailureStatus
  loop_detected budget_exceeded telemetry_export_failed : FailureStatus

abbrev pub failure_text : FailureStatus → String
failure_text FailureStatus.timeout = "timeout"
failure_text FailureStatus.rate_limit = "rate_limit"
failure_text FailureStatus.upstream = "upstream_failure"
failure_text FailureStatus.caller_error = "caller_error"
failure_text FailureStatus.retrieval_miss = "retrieval_miss"
failure_text FailureStatus.loop_detected = "loop_detected"
failure_text FailureStatus.budget_exceeded = "budget_exceeded"
failure_text FailureStatus.telemetry_export_failed = "telemetry_export_failed"

-- Durations and token counts are Go ints; the timestamp counts nanoseconds since the zero time.
pub record Trace : Type 0 where
  pub trace_id : String
  pub tenant_id : String
  pub user_id : String
  pub session_id : String
  pub feature : String
  pub timestamp : ℕ
  pub request_id : String
  pub service_trace_id : String
  pub span_id : String
  pub observation_type : ObservationType
  pub failure_status : String
  pub query_hash : String
  pub query_lang : String
  pub query_len : ℤ
  pub model : String
  pub prompt_template_ver : String
  pub prompt_hash : String
  pub input_tokens : ℤ
  pub output_tokens : ℤ
  pub reasoning_tokens : ℤ
  pub cache_read_tokens : ℤ
  pub cache_write_tokens : ℤ
  pub temperature : Float64
  pub ttft_ms : ℤ
  pub total_latency_ms : ℤ
  pub chunks_retrieved : ℤ
  pub query_rewritten_hash : String
  pub top_scores : List Float64
  pub retrieval_latency_ms : ℤ
  pub query_summary : SafeSummary
  pub prompt_summary : SafeSummary
  pub retrieval_summary : SafeSummary
  pub tool_summary : SafeSummary
  pub agent_step_index : ℤ
  pub tool_call_id : String
  pub tool_name : String
  pub termination_reason : String
  pub loop_detected : Bool
  pub budget_exceeded : Bool
  pub provider_name : String
  pub requested_model : String
  pub circuit_state : String
  pub degraded : Bool
  pub rate_limited : Bool
  pub cost_usd : Float64
  pub outcome_status : String
  pub user_rating : Option ℤ
  pub auto_eval_score : Option Float64

abbrev pub zero_float : Float64
zero_float = record { bits = 0 }

-- Trace{}
abbrev pub empty_trace : Trace
empty_trace = record {
  trace_id = "";
  tenant_id = "";
  user_id = "";
  session_id = "";
  feature = "";
  timestamp = 0;
  request_id = "";
  service_trace_id = "";
  span_id = "";
  observation_type = ObservationType.other "";
  failure_status = "";
  query_hash = "";
  query_lang = "";
  query_len = pos 0;
  model = "";
  prompt_template_ver = "";
  prompt_hash = "";
  input_tokens = pos 0;
  output_tokens = pos 0;
  reasoning_tokens = pos 0;
  cache_read_tokens = pos 0;
  cache_write_tokens = pos 0;
  temperature = zero_float;
  ttft_ms = pos 0;
  total_latency_ms = pos 0;
  chunks_retrieved = pos 0;
  query_rewritten_hash = "";
  top_scores = [];
  retrieval_latency_ms = pos 0;
  query_summary = empty_summary;
  prompt_summary = empty_summary;
  retrieval_summary = empty_summary;
  tool_summary = empty_summary;
  agent_step_index = pos 0;
  tool_call_id = "";
  tool_name = "";
  termination_reason = "";
  loop_detected = false;
  budget_exceeded = false;
  provider_name = "";
  requested_model = "";
  circuit_state = "";
  degraded = false;
  rate_limited = false;
  cost_usd = zero_float;
  outcome_status = "";
  user_rating = none;
  auto_eval_score = none;
}

abbrev pub TraceOption : Type 0
TraceOption = Trace → Trace

unfoldable pub apply_trace_options : Trace → List (Option TraceOption) → Trace
apply_trace_options base [] = base
apply_trace_options base (o ∷ os) = apply_trace_options (apply_option o base) os

unfoldable pub new_trace : String → String → ℕ → List (Option TraceOption) → Trace
unfolding apply_trace_options
new_trace trace_id feature timestamp options =
    apply_trace_options
      (record empty_trace { trace_id = trace_id; feature = feature; timestamp = timestamp }) options

abbrev pub with_tenant : String → String → String → TraceOption
with_tenant tenant_id user_id session_id t = record t {
  tenant_id = tenant_id;
  user_id = user_id;
  session_id = session_id;
}

abbrev pub with_query : String → String → ℤ → TraceOption
with_query query_hash query_lang query_len t = record t {
  query_hash = query_hash;
  query_lang = query_lang;
  query_len = query_len;
}

-- The identity's text where it has one, else what the trace holds.
abbrev or_kept : String → String → String
or_kept new old = if is_empty new then old else new

abbrev pub with_correlation_identity : CorrelationIdentity → TraceOption
with_correlation_identity i t = record t {
  request_id = or_kept i.request_id t.request_id;
  service_trace_id = or_kept i.service_trace_id t.service_trace_id;
  span_id = or_kept i.span_id t.span_id;
  trace_id = or_kept i.ai_trace_id t.trace_id;
  session_id = or_kept i.session_id t.session_id;
}

abbrev pub with_observation_type : ObservationType → TraceOption
with_observation_type o t = record t { observation_type = o }

abbrev pub with_model : String → TraceOption
with_model model t = record t { model = model }

abbrev pub with_prompt : String → String → TraceOption
with_prompt version hash t = record t { prompt_template_ver = version; prompt_hash = hash }

abbrev pub with_usage : ℤ → ℤ → ℤ → TraceOption
with_usage input output reasoning t = record t {
  input_tokens = input;
  output_tokens = output;
  reasoning_tokens = reasoning;
}

abbrev pub with_cache_usage : ℤ → ℤ → TraceOption
with_cache_usage reads writes t = record t {
  cache_read_tokens = reads;
  cache_write_tokens = writes;
}

abbrev pub with_temperature : Float64 → TraceOption
with_temperature temperature t = record t { temperature = temperature }

abbrev pub with_latency : ℤ → ℤ → TraceOption
with_latency ttft total t = record t { ttft_ms = ttft; total_latency_ms = total }

abbrev pub with_retrieval : ℤ → String → List Float64 → ℤ → TraceOption
with_retrieval chunks rewritten scores latency t = record t {
  chunks_retrieved = chunks;
  query_rewritten_hash = rewritten;
  top_scores = scores;
  retrieval_latency_ms = latency;
}

abbrev pub with_cost : Float64 → TraceOption
with_cost cost t = record t { cost_usd = cost }

abbrev pub with_outcome : String → TraceOption
with_outcome status t = record t { outcome_status = status }

abbrev pub with_safe_summaries : SafeSummary → SafeSummary → SafeSummary → SafeSummary → TraceOption
with_safe_summaries query prompt retrieval tool_use t = record t {
  query_summary = query;
  prompt_summary = prompt;
  retrieval_summary = retrieval;
  tool_summary = tool_use;
}

abbrev pub with_feedback : Option ℤ → Option Float64 → TraceOption
with_feedback rating score t = record t { user_rating = rating; auto_eval_score = score }

abbrev pub with_failure_status : FailureStatus → TraceOption
with_failure_status status = with_outcome (failure_text status)

-- The failure status comes first, so that the caller's options may overwrite it.
unfoldable pub new_failure_trace :
    String → String → ℕ → FailureStatus → List (Option TraceOption) → Trace
unfolding new_trace
new_failure_trace trace_id feature timestamp status options =
    new_trace trace_id feature timestamp (some (with_failure_status status) ∷ options)

-- A Tracer: an interface, which acts on the world outside and may panic (`true`).
pub record Tracer (W : Type 0) : Type 0 where
  pub record_trace : Trace → W → W × Bool

abbrev export_status : Bool → String
export_status panicked = if panicked then failure_text FailureStatus.telemetry_export_failed else ""

-- A nil tracer does nothing; a panic of the exporter becomes a status, and never leaves the call.
unfoldable pub record_with_export_failure_protection :
    {W : Type 0} → Option (Tracer W) → Trace → W → W × String
record_with_export_failure_protection none t w = (w, "")
record_with_export_failure_protection (some tracer) t w =
    let (w', panicked) = tracer.record_trace t w in (w', export_status panicked)

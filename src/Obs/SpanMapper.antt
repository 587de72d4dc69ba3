-- ===== src/Obs/SpanMapper.antt =====
-- pkg/ai/obs/otel_mapper.go and otel_tracer.go: a trace as the snapshot of a span. A map is a
-- dictionary, and its copy is the identity on values; time.Format and strconv's print of a float64 are
-- parameters, as is the sink, whose panics are recovered.
pub mod Privacy
pub mod Tests
use Prim.Native.Char.{Char}
use ash_jazz_ai_agent.Prelude.{
  ℕ, String, Bool, true, false, not, ◌&&◌, ◌||◌, List, [], ◌∷◌, map, Option, none, some,
  if◌then◌else◌,
}
use ash_jazz_ai_agent.Prelude.Decimal.{decimal, int_text}
use ash_jazz_ai_agent.Prelude.Dict.{Dict, insert, text_key}
use ash_jazz_ai_agent.Prelude.Float.{Float64, equal}
use ash_jazz_ai_agent.Prelude.Int.{ℤ, is_zero}
use ash_jazz_ai_agent.Prelude.Substring.{join}
use ash_jazz_ai_agent.Prelude.Text.{append, is_empty}
use ash_jazz_ai_agent.Errors.{Error, Result, ok, err}
use ash_jazz_ai_agent.Obs.Redaction.{Finding, scan_forbidden_payload_fields}
use ash_jazz_ai_agent.Obs.Summary.{SafeSummary}
use ash_jazz_ai_agent.Obs.Trace.{
  ObservationType, Trace, observation_text, validate_observation_type, zero_float,
}

pub record TraceSpanSnapshot : Type 0 where
  pub name : String
  pub request_id : String
  pub service_trace_id : String
  pub span_id : String
  pub parent_span_id : String
  pub ai_trace_id : String
  pub observation_type : ObservationType
  pub attributes : Dict String String
  pub summaries : Dict String SafeSummary

-- A value, by the function that puts it: `putStringAttribute`, and so on.
pub data Attribute : Type 0 where
  text : String → Attribute
  int : ℤ → Attribute
  int_allow_zero : ℤ → Bool → Attribute
  float : Float64 → Attribute
  boolean : Bool → Attribute
  floats : List Float64 → Attribute
  int_pointer : Option ℤ → Attribute
  float_pointer : Option Float64 → Attribute

abbrev pub Attributes : Type 0
Attributes = Dict String String

abbrev pub is_nil {ℓ} : {A : Type ℓ} → List A → Bool
is_nil [] = true
is_nil (a ∷ rest) = false

abbrev is_none {ℓ} : {A : Type ℓ} → Option A → Bool
is_none none = true
is_none (some a) = false

abbrev is_retriever : ObservationType → Bool
is_retriever ObservationType.retriever = true
is_retriever _ = false

abbrev pub is_empty_safe_summary : SafeSummary → Bool
is_empty_safe_summary s =
    is_empty s.hash
    && (is_zero s.length
        && (is_empty s.category
            && (is_zero s.count
                && (is_none s.score && (is_empty s.status && is_empty s.error_class)))))

abbrev put_safe_summary : String → SafeSummary → Dict String SafeSummary → Dict String SafeSummary
put_safe_summary key summary summaries =
    if is_empty_safe_summary summary then summaries else insert key summary summaries

unfoldable pub summaries_for_trace : Trace → Dict String SafeSummary
unfolding insert
summaries_for_trace trace = put_safe_summary "tool" trace.tool_summary (
    put_safe_summary "retrieval" trace.retrieval_summary (
      put_safe_summary "prompt" trace.prompt_summary
        (put_safe_summary "query" trace.query_summary [])))

abbrev pub span_name_for_observation_type : ObservationType → String
span_name_for_observation_type observation_type = append "ai." (observation_text observation_type)

abbrev pub span_id_for_trace : Trace → String
span_id_for_trace trace =
    append "span-" (append (observation_text trace.observation_type) (append "-" trace.trace_id))

-- A value that is put unless it is the zero of its kind.
unfoldable pub put_unless : Bool → String → String → Attributes → Attributes
unfolding insert
put_unless is_left_out key printed attributes =
    if is_left_out then attributes else insert key printed attributes

module _ (table : Char → Char) (format_time : ℕ → String) (format_float : Float64 → String) where
  unfoldable pub put_string_attribute : String → String → Attributes → Attributes
  unfolding scan_forbidden_payload_fields insert
  put_string_attribute key value attributes =
      if is_empty value
      then attributes
      else if is_nil (scan_forbidden_payload_fields table ((key, value) ∷ []))
      then insert key value attributes
      else attributes

  unfoldable pub put : String → Attribute → Attributes → Attributes
  unfolding put_string_attribute put_unless decimal join
  put key (Attribute.text value) attributes = put_string_attribute key value attributes
  put key (Attribute.int value) attributes =
      put_unless (is_zero value) key (int_text value) attributes
  put key (Attribute.int_allow_zero value include) attributes =
      put_unless (not include && is_zero value) key (int_text value) attributes
  put key (Attribute.float value) attributes =
      put_unless (equal value zero_float) key (format_float value) attributes
  put key (Attribute.boolean value) attributes = put_unless (not value) key "true" attributes
  put key (Attribute.floats values) attributes =
      put_unless (is_nil values) key (join "," (map format_float values)) attributes
  put key (Attribute.int_pointer none) attributes = attributes
  put key (Attribute.int_pointer (some value)) attributes = insert key (int_text value) attributes
  put key (Attribute.float_pointer none) attributes = attributes
  put key (Attribute.float_pointer (some value)) attributes =
      insert key (format_float value) attributes

  unfoldable pub put_all : List (String × Attribute) → Attributes → Attributes
  unfolding put
  put_all [] attributes = attributes
  put_all ((key, value) ∷ rest) attributes = put_all rest (put key value attributes)

  -- The puts of `attributesForTrace`, in their order.
  abbrev pub puts_of : Trace → List (String × Attribute)
  puts_of trace =
      ("ai.trace_id", Attribute.text trace.trace_id)
      ∷ ("ai.tenant_id", Attribute.text trace.tenant_id)
      ∷ ("ai.user_id", Attribute.text trace.user_id)
      ∷ ("ai.session_id", Attribute.text trace.session_id)
      ∷ ("ai.timestamp", Attribute.text (format_time trace.timestamp))
      ∷ ("ai.failure_status", Attribute.text trace.failure_status)
      ∷ ("ai.query.hash", Attribute.text trace.query_hash)
      ∷ ("ai.query.lang", Attribute.text trace.query_lang)
      ∷ ("ai.query.length", Attribute.int trace.query_len)
      ∷ ("ai.model", Attribute.text trace.model)
      ∷ ("ai.prompt.template_version", Attribute.text trace.prompt_template_ver)
      ∷ ("ai.prompt.hash", Attribute.text trace.prompt_hash)
      ∷ ("ai.usage.input_tokens", Attribute.int trace.input_tokens)
      ∷ ("ai.usage.output_tokens", Attribute.int trace.output_tokens)
      ∷ ("ai.usage.reasoning_tokens", Attribute.int trace.reasoning_tokens)
      ∷ ("ai.usage.cache_read_tokens", Attribute.int trace.cache_read_tokens)
      ∷ ("ai.usage.cache_write_tokens", Attribute.int trace.cache_write_tokens)
      ∷ ("ai.temperature", Attribute.float trace.temperature)
      ∷ ("ai.latency.ttft_ms", Attribute.int trace.ttft_ms)
      ∷ ("ai.latency.total_ms", Attribute.int trace.total_latency_ms)
      ∷ (
        "ai.retrieval.chunks",
        Attribute.int_allow_zero trace.chunks_retrieved (is_retriever trace.observation_type),
      )
      ∷ ("ai.retrieval.query_rewrite_hash", Attribute.text trace.query_rewritten_hash)
      ∷ ("ai.retrieval.top_scores", Attribute.floats trace.top_scores)
      ∷ ("ai.latency.retrieval_ms", Attribute.int trace.retrieval_latency_ms)
      ∷ ("ai.agent.step_index", Attribute.int trace.agent_step_index)
      ∷ ("ai.agent.tool_call_id", Attribute.text trace.tool_call_id)
      ∷ ("ai.agent.tool_name", Attribute.text trace.tool_name)
      ∷ ("ai.agent.termination_reason", Attribute.text trace.termination_reason)
      ∷ ("ai.agent.loop_detected", Attribute.boolean trace.loop_detected)
      ∷ ("ai.agent.budget_exceeded", Attribute.boolean trace.budget_exceeded)
      ∷ ("ai.provider.name", Attribute.text trace.provider_name)
      ∷ ("ai.provider.requested_model", Attribute.text trace.requested_model)
      ∷ ("ai.provider.circuit_state", Attribute.text trace.circuit_state)
      ∷ ("ai.provider.degraded", Attribute.boolean trace.degraded)
      ∷ ("ai.provider.rate_limited", Attribute.boolean trace.rate_limited)
      ∷ ("ai.cost_usd", Attribute.float trace.cost_usd)
      ∷ ("ai.feedback.user_rating", Attribute.int_pointer trace.user_rating)
      ∷ ("ai.feedback.auto_eval_score", Attribute.float_pointer trace.auto_eval_score)
      ∷ []

  unfoldable pub attributes_for_trace : Trace → Attributes
  unfolding put_all
  attributes_for_trace trace =
      put_all (puts_of trace)
        (("ai.feature", trace.feature) ∷ ("ai.outcome", trace.outcome_status) ∷ [])

  abbrev snapshot_of : Trace → TraceSpanSnapshot
  snapshot_of trace = record {
    name = span_name_for_observation_type trace.observation_type;
    request_id = trace.request_id;
    service_trace_id = trace.service_trace_id;
    span_id = span_id_for_trace trace;
    parent_span_id = trace.span_id;
    ai_trace_id = trace.trace_id;
    observation_type = trace.observation_type;
    attributes = attributes_for_trace trace;
    summaries = summaries_for_trace trace;
  }

  abbrev unless_invalid : Trace → Option Error → Result TraceSpanSnapshot
  unless_invalid trace (some e) = err e
  unless_invalid trace none = ok (snapshot_of trace)

  unfoldable pub map_trace_to_span_snapshot : Trace → Result TraceSpanSnapshot
  unfolding attributes_for_trace summaries_for_trace validate_observation_type
  map_trace_to_span_snapshot trace =
      unless_invalid trace (validate_observation_type trace.observation_type)

  module _ {W : Type 0} where
    abbrev recorded : (TraceSpanSnapshot → W → W) → Result TraceSpanSnapshot → W → W
    recorded sink (err e) w = w
    recorded sink (ok snapshot) w = sink snapshot w

    -- `OTelTracer.Record`, for a tracer that may be nil or have no sink.
    unfoldable pub record_span : Option (TraceSpanSnapshot → W → W) → Trace → W → W
    unfolding map_trace_to_span_snapshot
    record_span none trace w = w
    record_span (some sink) trace w = recorded sink (map_trace_to_span_snapshot trace) w

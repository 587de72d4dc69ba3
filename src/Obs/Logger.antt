-- ===== src/Obs/Logger.antt =====
-- pkg/ai/obs/logger.go: the entry that the logger writes of a trace. time.Format, json.Marshal and the
-- writer are parameters; a write that fails is ignored, and the lock makes Record one function.
pub mod Privacy
pub mod Tests
use Prim.Native.Char.{Char}
use ash_jazz_ai_agent.Prelude.{
  ℕ, String, Bool, true, false, List, [], ◌∷◌, Option, none, some, if◌then◌else◌,
}
use ash_jazz_ai_agent.Prelude.Int.{ℤ}
use ash_jazz_ai_agent.Prelude.Text.{append, is_empty}
use ash_jazz_ai_agent.Errors.{Error, Result, ok, err}
use ash_jazz_ai_agent.Json.{Float64}
use ash_jazz_ai_agent.Obs.Redaction.{Finding, scan_forbidden_payload_fields}
use ash_jazz_ai_agent.Obs.Summary.{SafeSummary}
use ash_jazz_ai_agent.Obs.Trace.{ObservationType, Trace}

pub record LogEntry : Type 0 where
  pub trace_id : String
  pub tenant_id : String
  pub user_id : String
  pub session_id : String
  pub feature : String
  pub timestamp : String
  pub request_id : String
  pub service_trace_id : String
  pub span_id : String
  pub observation_type : ObservationType
  pub failure_status : String
  pub query_hash : String
  pub query_lang : String
  pub query_len : ℤ
  pub model : String
  pub prompt_template_version : String
  pub prompt_hash : String
  pub input_tokens : ℤ
  pub output_tokens : ℤ
  pub reasoning_tokens : ℤ
  pub cache_read_tokens : ℤ
  pub cache_write_tokens : ℤ
  pub temperature : Float64
  pub ttft_ms : ℤ
  pub total_latency_ms : ℤ
  pub chunks_retrieved : ℤ
  pub query_rewritten_hash : String
  pub top_scores : List Float64
  pub retrieval_latency_ms : ℤ
  pub query_summary : SafeSummary
  pub prompt_summary : SafeSummary
  pub retrieval_summary : SafeSummary
  pub tool_summary : SafeSummary
  pub agent_step_index : ℤ
  pub tool_call_id : String
  pub tool_name : String
  pub termination_reason : String
  pub loop_detected : Bool
  pub budget_exceeded : Bool
  pub provider_name : String
  pub requested_model : String
  pub circuit_state : String
  pub degraded : Bool
  pub rate_limited : Bool
  pub cost_usd : Float64
  pub outcome_status : String
  pub user_rating : Option ℤ
  pub auto_eval_score : Option Float64

abbrev pub is_nil {ℓ} : {A : Type ℓ} → List A → Bool
is_nil [] = true
is_nil (a ∷ rest) = false

module _ (table : Char → Char) where
  unfoldable pub safe_log_string : String → String → String
  unfolding scan_forbidden_payload_fields
  safe_log_string key value =
      if is_empty value
      then ""
      else if is_nil (scan_forbidden_payload_fields table ((key, value) ∷ []))
      then value
      else ""

  unfoldable pub sanitize_log_entry : LogEntry → LogEntry
  unfolding safe_log_string
  sanitize_log_entry entry = record entry {
    trace_id = safe_log_string "trace_id" entry.trace_id;
    tenant_id = safe_log_string "tenant_id" entry.tenant_id;
    user_id = safe_log_string "user_id" entry.user_id;
    session_id = safe_log_string "session_id" entry.session_id;
    feature = safe_log_string "feature" entry.feature;
    timestamp = safe_log_string "timestamp" entry.timestamp;
    request_id = safe_log_string "request_id" entry.request_id;
    service_trace_id = safe_log_string "service_trace_id" entry.service_trace_id;
    span_id = safe_log_string "span_id" entry.span_id;
    failure_status = safe_log_string "failure_status" entry.failure_status;
    query_hash = safe_log_string "query_hash" entry.query_hash;
    query_lang = safe_log_string "query_lang" entry.query_lang;
    model = safe_log_string "model" entry.model;
    prompt_template_version =
        safe_log_string "prompt_template_version" entry.prompt_template_version;
    prompt_hash = safe_log_string "prompt_hash" entry.prompt_hash;
    query_rewritten_hash = safe_log_string "query_rewritten_hash" entry.query_rewritten_hash;
    tool_call_id = safe_log_string "tool_call_id" entry.tool_call_id;
    tool_name = safe_log_string "tool_name" entry.tool_name;
    termination_reason = safe_log_string "termination_reason" entry.termination_reason;
    provider_name = safe_log_string "provider_name" entry.provider_name;
    requested_model = safe_log_string "requested_model" entry.requested_model;
    circuit_state = safe_log_string "circuit_state" entry.circuit_state;
    outcome_status = safe_log_string "outcome_status" entry.outcome_status;
  }

  module _ (format_time : ℕ → String) where
    -- The entry before its texts are scanned.
    abbrev pub unscanned_entry : Trace → LogEntry
    unscanned_entry trace = record {
      trace_id = trace.trace_id;
      tenant_id = trace.tenant_id;
      user_id = trace.user_id;
      session_id = trace.session_id;
      feature = trace.feature;
      timestamp = format_time trace.timestamp;
      request_id = trace.request_id;
      service_trace_id = trace.service_trace_id;
      span_id = trace.span_id;
      observation_type = trace.observation_type;
      failure_status = trace.failure_status;
      query_hash = trace.query_hash;
      query_lang = trace.query_lang;
      query_len = trace.query_len;
      model = trace.model;
      prompt_template_version = trace.prompt_template_ver;
      prompt_hash = trace.prompt_hash;
      input_tokens = trace.input_tokens;
      output_tokens = trace.output_tokens;
      reasoning_tokens = trace.reasoning_tokens;
      cache_read_tokens = trace.cache_read_tokens;
      cache_write_tokens = trace.cache_write_tokens;
      temperature = trace.temperature;
      ttft_ms = trace.ttft_ms;
      total_latency_ms = trace.total_latency_ms;
      chunks_retrieved = trace.chunks_retrieved;
      query_rewritten_hash = trace.query_rewritten_hash;
      top_scores = trace.top_scores;
      retrieval_latency_ms = trace.retrieval_latency_ms;
      query_summary = trace.query_summary;
      prompt_summary = trace.prompt_summary;
      retrieval_summary = trace.retrieval_summary;
      tool_summary = trace.tool_summary;
      agent_step_index = trace.agent_step_index;
      tool_call_id = trace.tool_call_id;
      tool_name = trace.tool_name;
      termination_reason = trace.termination_reason;
      loop_detected = trace.loop_detected;
      budget_exceeded = trace.budget_exceeded;
      provider_name = trace.provider_name;
      requested_model = trace.requested_model;
      circuit_state = trace.circuit_state;
      degraded = trace.degraded;
      rate_limited = trace.rate_limited;
      cost_usd = trace.cost_usd;
      outcome_status = trace.outcome_status;
      user_rating = trace.user_rating;
      auto_eval_score = trace.auto_eval_score;
    }

    unfoldable pub new_log_entry : Trace → LogEntry
    unfolding sanitize_log_entry
    new_log_entry trace = sanitize_log_entry (unscanned_entry trace)

    module _ {W : Type 0} (marshal : LogEntry → Result String) (write : String → W → W) where
      abbrev written : Result String → W → W
      written (err e) w = w
      written (ok line) w = write (append line "\n") w

      -- `Record`, for a logger that may be nil.
      unfoldable pub record_log : Bool → Trace → W → W
      unfolding new_log_entry
      record_log is_given trace w =
          if is_given then written (marshal (new_log_entry trace)) w else w

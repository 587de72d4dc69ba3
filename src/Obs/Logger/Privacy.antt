-- ===== src/Obs/Logger/Privacy.antt =====
-- No text that the logger scans is sensitive.
use Prim.Native.Char.{Char}
use Prim.Native.String.{String}
use ash_jazz_ai_agent.Prelude.{
  ℕ, Bool, true, false, not, ◌&&◌, List, [], ◌∷◌, ◌≡◌, refl, arith, if◌then◌else◌, All, map, sym,
  subst, ◌∙◌,
}
use ash_jazz_ai_agent.Prelude.Substring.{count_runes, to_lower}
use ash_jazz_ai_agent.Prelude.Text.{trim_space, is_empty}
use ash_jazz_ai_agent.Obs.Trace.{Trace}
use ash_jazz_ai_agent.Obs.Redaction.{
  contains_sensitive_payload_value, is_forbidden_payload_key, is_listed, digits_only, normalize,
  looks_like_chinese_national_id,
}
use ash_jazz_ai_agent.Obs.Redaction.Scan.{is_clean, scan-is_clean}
use ash_jazz_ai_agent.Obs.Logger.{
  LogEntry, safe_log_string, sanitize_log_entry, new_log_entry, unscanned_entry,
}

-- The texts of an entry that sanitizeLogEntry scans. Its observation type and the texts of its four
-- summaries are not among them.
abbrev pub scanned_of : LogEntry → List String
scanned_of entry =
    entry.trace_id ∷ entry.tenant_id ∷ entry.user_id ∷ entry.session_id ∷ entry.feature
    ∷ entry.timestamp ∷ entry.request_id ∷ entry.service_trace_id ∷ entry.span_id
    ∷ entry.failure_status ∷ entry.query_hash ∷ entry.query_lang ∷ entry.model
    ∷ entry.prompt_template_version ∷ entry.prompt_hash ∷ entry.query_rewritten_hash
    ∷ entry.tool_call_id ∷ entry.tool_name ∷ entry.termination_reason ∷ entry.provider_name
    ∷ entry.requested_model ∷ entry.circuit_state ∷ entry.outcome_status ∷ []

module _ (table : Char → Char) where
  abbrev pub IsInsensitive : String → Type 0
  IsInsensitive text = contains_sensitive_payload_value table text ≡ false

  -- A text, or nothing in place of a sensitive one.
  abbrev pub keep : String → String
  keep text = if contains_sensitive_payload_value table text then "" else text

  empty-IsInsensitive : IsInsensitive ""
  unfolding contains_sensitive_payload_value to_lower trim_space
  empty-IsInsensitive = refl

  keep-IsInsensitive : (text : String) → IsInsensitive (keep text)
  keep-IsInsensitive text = ground (arith, empty-IsInsensitive)

  safe_log_string-keep :
      (key value : String)
      → is_forbidden_payload_key table key ≡ false
      → safe_log_string table key value ≡ keep value
  unfolding safe_log_string is_clean
  safe_log_string-keep key String.[] allowed = ground arith
  safe_log_string-keep key (String.◌∷◌ c value) allowed =
      ground (arith, allowed, scan-is_clean table ((key, String.◌∷◌ c value) ∷ []))

  abbrev no_forbidden_key : List (String × String) → Bool
  no_forbidden_key [] = true
  no_forbidden_key ((key, value) ∷ fields) =
      not (is_forbidden_payload_key table key) && no_forbidden_key fields

  scanned_texts :
      (fields : List (String × String))
      → no_forbidden_key fields ≡ true
      → map (λ f. safe_log_string table f.0 f.1) fields ≡ map (λ f. keep f.1) fields
  scanned_texts [] h = refl
  scanned_texts ((key, value) ∷ fields) h =
      ground (arith, h, safe_log_string-keep key value, scanned_texts fields)

  All-keep : (texts : List String) → All IsInsensitive (map keep texts)
  All-keep [] = tt
  All-keep (text ∷ texts) = (keep-IsInsensitive text, All-keep texts)

  -- Eighteen digits pass for a national identifier.
  eighteen_digits-keep :
      (text : String)
      → count_runes (digits_only text) ≡ 18
      → is_empty (normalize table text) ≡ false
      → keep text ≡ ""
  unfolding contains_sensitive_payload_value looks_like_chinese_national_id
  eighteen_digits-keep text digits given = ground (arith, digits, given)

  module _ (format_time : ℕ → String) where
    abbrev fields_of : LogEntry → List (String × String)
    fields_of entry =
        ("trace_id", entry.trace_id)
        ∷ ("tenant_id", entry.tenant_id)
        ∷ ("user_id", entry.user_id)
        ∷ ("session_id", entry.session_id)
        ∷ ("feature", entry.feature)
        ∷ ("timestamp", entry.timestamp)
        ∷ ("request_id", entry.request_id)
        ∷ ("service_trace_id", entry.service_trace_id)
        ∷ ("span_id", entry.span_id)
        ∷ ("failure_status", entry.failure_status)
        ∷ ("query_hash", entry.query_hash)
        ∷ ("query_lang", entry.query_lang)
        ∷ ("model", entry.model)
        ∷ ("prompt_template_version", entry.prompt_template_version)
        ∷ ("prompt_hash", entry.prompt_hash)
        ∷ ("query_rewritten_hash", entry.query_rewritten_hash)
        ∷ ("tool_call_id", entry.tool_call_id)
        ∷ ("tool_name", entry.tool_name)
        ∷ ("termination_reason", entry.termination_reason)
        ∷ ("provider_name", entry.provider_name)
        ∷ ("requested_model", entry.requested_model)
        ∷ ("circuit_state", entry.circuit_state)
        ∷ ("outcome_status", entry.outcome_status)
        ∷ []

    scanned_of-new_log_entry :
        (trace : Trace)
        → scanned_of (new_log_entry table format_time trace)
          ≡ map keep (scanned_of (unscanned_entry table format_time trace))
    unfolding new_log_entry sanitize_log_entry is_forbidden_payload_key is_listed to_lower
        trim_space
    scanned_of-new_log_entry trace =
        scanned_texts (fields_of (unscanned_entry table format_time trace)) refl

    -- Each of the 23 scanned texts of a log entry is the one made of the trace, or nothing in place of a
    -- sensitive one; so that none of them is sensitive, whatever the trace holds. The observation type and
    -- the four summaries are the trace's as they are, sensitive or not.
    pub new_log_entry-keep :
        (trace : Trace)
        → let entry = new_log_entry table format_time trace in
          (scanned_of entry ≡ map keep (scanned_of (unscanned_entry table format_time trace)))
          × All IsInsensitive (scanned_of entry)
          × (entry.observation_type ≡ trace.observation_type)
          × (entry.query_summary ≡ trace.query_summary)
          × (entry.prompt_summary ≡ trace.prompt_summary)
          × (entry.retrieval_summary ≡ trace.retrieval_summary)
          × (entry.tool_summary ≡ trace.tool_summary)
    unfolding new_log_entry sanitize_log_entry
    new_log_entry-keep trace =
        let same = scanned_of-new_log_entry trace in
        (
          same,
          subst (All IsInsensitive) (sym same)
              (All-keep (scanned_of (unscanned_entry table format_time trace))),
          refl,
          refl,
          refl,
          refl,
          refl,
        )

    -- A timestamp whose text has 18 digits, as one to the tenth of a millisecond has, is left out of the
    -- entry: it passes for a national identifier.
    pub new_log_entry-timestamp_lost :
        (trace : Trace)
        → count_runes (digits_only (format_time trace.timestamp)) ≡ 18
        → is_empty (normalize table (format_time trace.timestamp)) ≡ false
        → (new_log_entry table format_time trace).timestamp ≡ ""
    unfolding new_log_entry sanitize_log_entry is_forbidden_payload_key is_listed to_lower
        trim_space
    new_log_entry-timestamp_lost trace digits given =
        let text = format_time trace.timestamp in
        safe_log_string-keep "timestamp" text refl ∙ eighteen_digits-keep text digits given

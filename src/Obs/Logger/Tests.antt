-- ===== src/Obs/Logger/Tests.antt =====
-- The entry of a trace whose query language holds a secret, at a time of a tenth of a millisecond.
use Prim.Native.Char.{Char}
use ash_jazz_ai_agent.Prelude.{ℕ, String, false, ◌≡◌, refl, map, All}
use ash_jazz_ai_agent.Prelude.Text.{is_empty, trim_space}
use ash_jazz_ai_agent.Prelude.Substring.{count_runes, to_lower}
use ash_jazz_ai_agent.Obs.Redaction.{digits_only, normalize}
use ash_jazz_ai_agent.Obs.Trace.{Trace, empty_trace}
use ash_jazz_ai_agent.Obs.Logger.{new_log_entry, unscanned_entry}
use ash_jazz_ai_agent.Obs.Logger.Privacy.{
  IsInsensitive, keep, scanned_of, new_log_entry-keep, new_log_entry-timestamp_lost,
}

abbrev table : Char → Char
table c = c

abbrev format_time : ℕ → String
format_time t = "2024-01-02T03:04:05.1234Z"

abbrev trace : Trace
trace = record empty_trace { trace_id = "t1"; query_lang = "Bearer abc" }

new_log_entry-keep_example :
    let entry = new_log_entry table format_time trace in
    (scanned_of entry ≡ map (keep table) (scanned_of (unscanned_entry table format_time trace)))
    × All (IsInsensitive table) (scanned_of entry)
    × (entry.observation_type ≡ trace.observation_type)
    × (entry.query_summary ≡ trace.query_summary)
    × (entry.prompt_summary ≡ trace.prompt_summary)
    × (entry.retrieval_summary ≡ trace.retrieval_summary)
    × (entry.tool_summary ≡ trace.tool_summary)
new_log_entry-keep_example = new_log_entry-keep table format_time trace

eighteen : count_runes (digits_only (format_time trace.timestamp)) ≡ 18
unfolding digits_only
eighteen = refl

given : is_empty (normalize table (format_time trace.timestamp)) ≡ false
unfolding to_lower trim_space
given = refl

new_log_entry-timestamp_lost_example : (new_log_entry table format_time trace).timestamp ≡ ""
new_log_entry-timestamp_lost_example =
    new_log_entry-timestamp_lost table format_time trace eighteen given

-- ===== src/Obs/SpanMapper/Tests.antt =====
-- The attributes of a trace whose feature is sensitive.
use Prim.Native.Char.{Char}
use ash_jazz_ai_agent.Prelude.{ℕ, String, true, ◌≡◌}
use ash_jazz_ai_agent.Prelude.Dict.{text_key}
use ash_jazz_ai_agent.Prelude.Float.{Float64}
use ash_jazz_ai_agent.Obs.Trace.{Trace, empty_trace}
use ash_jazz_ai_agent.Obs.SpanMapper.{attributes_for_trace}
use ash_jazz_ai_agent.Obs.SpanMapper.Privacy.{all_safe, attributes_for_trace-all_safe}

abbrev table : Char → Char
table c = c

abbrev format_time : ℕ → String
format_time t = "2024-01-02T03:04:05Z"

abbrev format_float : Float64 → String
format_float x = "0.5"

abbrev trace : Trace
trace = record empty_trace {
  feature = "Bearer abc";
  model = "password";
  outcome_status = "success";
}

attributes_for_trace-all_safe_example :
    all_safe table (attributes_for_trace table format_time format_float trace) ≡ true
attributes_for_trace-all_safe_example =
    attributes_for_trace-all_safe table format_time format_float trace

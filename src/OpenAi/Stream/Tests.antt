-- ===== src/OpenAi/Stream/Tests.antt =====
-- Runs of a stream, and its theorems at concrete inputs.
use ash_jazz_ai_agent.Prelude.{
  ℕ, String, Bool, true, false, ◌||◌, List, [], ◌∷◌, none, some, ◌≡◌, refl, ltb, length, take,
  if◌then◌else◌,
}
use ash_jazz_ai_agent.Prelude.Int.{pos}
use ash_jazz_ai_agent.Prelude.Text.{text_beq}
use ash_jazz_ai_agent.Errors.{Result, ok}
use ash_jazz_ai_agent.Json.{Fields, Map}
use ash_jazz_ai_agent.Llm.{ChatChunk, FinishReason}
use ash_jazz_ai_agent.OpenAi.ToolCalls.{ToolCallDelta}
use ash_jazz_ai_agent.OpenAi.Wire.{StreamEvent}
use ash_jazz_ai_agent.OpenAi.Failures.{no_error_body}
use ash_jazz_ai_agent.OpenAi.Stream.{
  call_chunk, cut_short, empty_chunk, failed_chunk, new_stream_event_processor, stream_chat_chunks,
}
use ash_jazz_ai_agent.OpenAi.Stream.Transcript.{transcript}
use ash_jazz_ai_agent.OpenAi.Stream.Delivery.{taken, stream_chat_chunks-take}
use ash_jazz_ai_agent.OpenAi.Stream.Endings.{follows, stream_chat_chunks-follows}
use ash_jazz_ai_agent.OpenAi.Stream.Verdict.{has_verdict, has_done, stream_chat_chunks-has_verdict}

-- A decoder of arguments that gives an empty map.
abbrev unmarshal : String → Result Map
unmarshal raw = ok (some Fields.no_field)

abbrev event : String → List ToolCallDelta → String → StreamEvent
event content deltas reason = record {
  choices =
      record { delta = record { content = content; tool_calls = deltas }; finish_reason = reason }
      ∷ [];
  usage = record { prompt_tokens = pos 0; completion_tokens = pos 0; total_tokens = pos 0 };
  error = no_error_body;
}

abbrev delta : ToolCallDelta
delta = record {
  index = pos 0;
  id = "a";
  delta_type = "function";
  function = record { name = "get"; arguments = "{}" };
}

-- A decoder of events: `call` has a fragment of a tool call, `calls` finishes the calls, and any other
-- text is content.
abbrev unmarshal_event : String → Result StreamEvent
unmarshal_event text =
    if text_beq text "call"
    then ok (event "" (delta ∷ []) "")
    else if text_beq text "calls"
    then ok (event "" [] "tool_calls")
    else ok (event text [] "")

abbrev always : ℕ → Bool
always n = true

abbrev run : (ℕ → Bool) → List String → List ChatChunk
run accepts lines = stream_chat_chunks unmarshal unmarshal_event accepts none none lines

abbrev tool_lines : List String
tool_lines = ": ping" ∷ "data: hi" ∷ "data: call" ∷ "data: calls" ∷ "data: [DONE]" ∷ []

-- The call follows the chunk that finishes the calls.
tool_run :
    run always tool_lines
    ≡ record empty_chunk { delta_content = "hi" }
      ∷ record empty_chunk { finish_reason = FinishReason.tool_calls }
      ∷ call_chunk (record { id = "a"; name = "get"; arguments = some Fields.no_field })
      ∷ []
unfolding stream_chat_chunks
tool_run = refl

-- A stream that breaks off ends with an error.
broken_run :
    run always ("data: hi" ∷ [])
    ≡ record empty_chunk { delta_content = "hi" } ∷ failed_chunk cut_short ∷ []
unfolding stream_chat_chunks
broken_run = refl

abbrev meant : List ChatChunk
meant = transcript unmarshal unmarshal_event none none tool_lines new_stream_event_processor

-- A context that ends after two chunks.
stream_chat_chunks-take_example :
    run (λ n. ltb n 2) tool_lines
    ≡ take (taken unmarshal unmarshal_event (λ n. ltb n 2) 0 (length meant)) meant
stream_chat_chunks-take_example =
    stream_chat_chunks-take unmarshal unmarshal_event (λ n. ltb n 2) none none tool_lines

stream_chat_chunks-follows_example : follows false (run always tool_lines) ≡ true
stream_chat_chunks-follows_example =
    stream_chat_chunks-follows unmarshal unmarshal_event always none none tool_lines

stream_chat_chunks-has_verdict_example :
    (has_verdict (run always ("data: hi" ∷ [])) || has_done ("data: hi" ∷ [])) ≡ true
stream_chat_chunks-has_verdict_example =
    stream_chat_chunks-has_verdict unmarshal unmarshal_event always none ("data: hi" ∷ [])
      (λ k. refl)

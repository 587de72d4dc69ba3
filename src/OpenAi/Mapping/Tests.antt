-- ===== src/OpenAi/Mapping/Tests.antt =====
-- A response with one tool call.
use ash_jazz_ai_agent.Prelude.{String, [], ◌∷◌, some, ◌≡◌, refl}
use ash_jazz_ai_agent.Prelude.Int.{pos}
use ash_jazz_ai_agent.Prelude.Text.{trim_space}
use ash_jazz_ai_agent.Errors.{Result, ok}
use ash_jazz_ai_agent.Json.{Fields, Map, Value}
use ash_jazz_ai_agent.Llm.{ChatResponse, FinishReason}
use ash_jazz_ai_agent.OpenAi.Wire.{WireResponse, map_finish_reason, usage_of}
use ash_jazz_ai_agent.OpenAi.Mapping.{map_tool_calls, decoded_response}
use ash_jazz_ai_agent.OpenAi.Mapping.Calls.{IsResponse, decoded_response-IsResponse}

abbrev unmarshal : String → Result Map
unmarshal raw = ok (some (Fields.field "raw" (Value.text raw) Fields.no_field))

abbrev decoded : WireResponse
decoded = record {
  model = "small";
  choices =
      record {
        message = record {
          content = "";
          tool_calls =
              record {
                id = "a";
                call_type = "function";
                function = record { name = "get"; arguments = "{}" };
              }
              ∷ [];
        };
        finish_reason = "tool_calls";
      }
      ∷ [];
  usage = record { prompt_tokens = pos 1; completion_tokens = pos 2; total_tokens = pos 3 };
}

abbrev response : ChatResponse
response = record {
  content = "";
  model = "small";
  usage = usage_of decoded.usage;
  finish_reason = FinishReason.tool_calls;
  tool_calls =
      record {
        id = "a";
        name = "get";
        arguments = some (Fields.field "raw" (Value.text "{}") Fields.no_field);
      }
      ∷ [];
}

is_decoded : decoded_response unmarshal (ok decoded) ≡ ok response
unfolding map_tool_calls map_finish_reason trim_space
is_decoded = refl

decoded_response-IsResponse_example : IsResponse unmarshal decoded decoded.choices response
decoded_response-IsResponse_example =
    decoded_response-IsResponse unmarshal decoded response is_decoded

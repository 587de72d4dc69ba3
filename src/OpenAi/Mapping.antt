-- ===== src/OpenAi/Mapping.antt =====
-- pkg/ai/llm/openai/provider.go: requests and responses of the framework as the protocol has them.
-- json.Unmarshal is a parameter.
pub mod Calls
pub mod Tests
use ash_jazz_ai_agent.Prelude.{
  String, Bool, true, false, List, [], ◌∷◌, map, Option, none, some, if◌then◌else◌,
}
use ash_jazz_ai_agent.Prelude.Int.{is_zero, ℤ, pos}
use ash_jazz_ai_agent.Prelude.Text.{trim_space}
use ash_jazz_ai_agent.Errors.{Error, wrapf, Result, ok, err}
use ash_jazz_ai_agent.Json.{Map}
use ash_jazz_ai_agent.Llm.{
  Role, Message, Tool, ToolCall, StructuredOutput, ChatRequest, ChatResponse, FinishReason,
}
use ash_jazz_ai_agent.OpenAi.ToolCalls.{decode_tool_arguments}
use ash_jazz_ai_agent.OpenAi.Wire.{
  WireMessage, WireTool, WireFormat, WireRequest, WireToolCall, WireChoice, WireResponse,
  map_finish_reason, usage_of,
}

-- `string(role)`
abbrev pub role_text : Role → String
role_text Role.system = "system"
role_text Role.user = "user"
role_text Role.assistant = "assistant"
role_text Role.tool = "tool"

abbrev pub map_message : Message → WireMessage
map_message m = record {
  role = role_text m.role;
  content = m.content;
  name = trim_space m.name;
  tool_call_id = trim_space m.tool_call_id;
}

abbrev pub map_messages : List Message → List WireMessage
map_messages messages = map map_message messages

abbrev pub map_tool : Tool → WireTool
map_tool t = record {
  tool_type = "function";
  function = record {
    name = t.name;
    description = t.description;
    parameters = t.parameters;
    strict = t.strict;
  };
}

-- `mapTools`; a nil slice is an empty one.
abbrev pub map_tools : List Tool → List WireTool
map_tools tools = map map_tool tools

abbrev pub map_structured_output : Option StructuredOutput → Option WireFormat
map_structured_output none = none
map_structured_output (some output) = some (record {
  format_type = "json_schema";
  json_schema = record { name = output.name; schema = output.schema; strict = output.strict };
})

unfoldable pub map_chat_request : ChatRequest → Bool → WireRequest
map_chat_request req stream = record {
  model = trim_space req.model;
  messages = map_messages req.messages;
  tools = map_tools req.tools;
  response_format = map_structured_output req.structured_output;
  reasoning_effort = trim_space req.reasoning_effort;
  temperature = req.temperature;
  max_tokens = if is_zero req.max_tokens then pos 0 else req.max_tokens;
  stream = stream;
}

module _ (unmarshal : String → Result Map) where
  abbrev pub mapped_call : WireToolCall → Result Map → Result ToolCall
  mapped_call call (err e) = err (wrapf "decode openai tool call %q arguments: %w" (call.id ∷ []) e)
  mapped_call call (ok arguments) =
      ok (record { id = call.id; name = call.function.name; arguments = arguments })

  abbrev pub cons_mapped : Result ToolCall → Result (List ToolCall) → Result (List ToolCall)
  cons_mapped (err e) rest = err e
  cons_mapped (ok call) (err e) = err e
  cons_mapped (ok call) (ok calls) = ok (call ∷ calls)

  unfoldable pub map_tool_calls : List WireToolCall → Result (List ToolCall)
  unfolding decode_tool_arguments
  map_tool_calls [] = ok []
  map_tool_calls (call ∷ calls) =
      let rest = map_tool_calls calls in
      cons_mapped (mapped_call call (decode_tool_arguments unmarshal call.function.arguments)) rest

  -- A response with no choice.
  abbrev pub empty_response : WireResponse → ChatResponse
  empty_response decoded = record {
    content = "";
    model = decoded.model;
    usage = usage_of decoded.usage;
    finish_reason = FinishReason.other "";
    tool_calls = [];
  }

  abbrev pub chosen : WireResponse → WireChoice → Result (List ToolCall) → Result ChatResponse
  chosen decoded choice (err e) = err e
  chosen decoded choice (ok calls) = ok (record (empty_response decoded) {
    content = choice.message.content;
    finish_reason = map_finish_reason choice.finish_reason;
    tool_calls = calls;
  })

  abbrev pub first_choice : WireResponse → List WireChoice → Result ChatResponse
  first_choice decoded [] = ok (empty_response decoded)
  first_choice decoded (choice ∷ choices) =
      chosen decoded choice (map_tool_calls choice.message.tool_calls)

  abbrev pub decoded_response : Result WireResponse → Result ChatResponse
  decoded_response (err e) = err (wrapf "decode openai chat response: %w" [] e)
  decoded_response (ok decoded) = first_choice decoded decoded.choices

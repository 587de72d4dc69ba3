-- ===== src/OpenAi/Wire.antt =====
-- The JSON of the protocol: the types of pkg/ai/llm/openai/provider.go, stream.go and errors.go that are
-- encoded and decoded. An absent field is its zero value.
use ash_jazz_ai_agent.Prelude.{String, Bool, true, not, List, Option, if◌then◌else◌}
use ash_jazz_ai_agent.Prelude.Int.{ℤ, pos}
use ash_jazz_ai_agent.Prelude.Text.{text_beq, is_empty}
use ash_jazz_ai_agent.Json.{Map, Float64}
use ash_jazz_ai_agent.Llm.{FinishReason, Usage}
use ash_jazz_ai_agent.OpenAi.ToolCalls.{ToolCallDelta}

pub record WireMessage : Type 0 where
  pub role : String
  pub content : String
  pub name : String
  pub tool_call_id : String

pub record WireFunction : Type 0 where
  pub name : String
  pub description : String
  pub parameters : Map
  pub strict : Bool

pub record WireTool : Type 0 where
  pub tool_type : String
  pub function : WireFunction

pub record WireSchema : Type 0 where
  pub name : String
  pub schema : Map
  pub strict : Bool

pub record WireFormat : Type 0 where
  pub format_type : String
  pub json_schema : WireSchema

pub record WireRequest : Type 0 where
  pub model : String
  pub messages : List WireMessage
  pub tools : List WireTool
  pub response_format : Option WireFormat
  pub reasoning_effort : String
  pub temperature : Option Float64
  pub max_tokens : ℤ
  pub stream : Bool

pub record WireUsage : Type 0 where
  pub prompt_tokens : ℤ
  pub completion_tokens : ℤ
  pub total_tokens : ℤ

pub record WireToolFunction : Type 0 where
  pub name : String
  pub arguments : String

pub record WireToolCall : Type 0 where
  pub id : String
  pub call_type : String
  pub function : WireToolFunction

pub record WireResponseMessage : Type 0 where
  pub content : String
  pub tool_calls : List WireToolCall

pub record WireChoice : Type 0 where
  pub message : WireResponseMessage
  pub finish_reason : String

pub record WireResponse : Type 0 where
  pub model : String
  pub choices : List WireChoice
  pub usage : WireUsage

pub record ErrorBody : Type 0 where
  pub message : String
  pub error_type : String
  pub error_code : String

pub record StreamDelta : Type 0 where
  pub content : String
  pub tool_calls : List ToolCallDelta

pub record StreamChoice : Type 0 where
  pub delta : StreamDelta
  pub finish_reason : String

pub record StreamEvent : Type 0 where
  pub choices : List StreamChoice
  pub usage : WireUsage
  pub error : ErrorBody

-- `reason != ""`
abbrev pub is_given : FinishReason → Bool
is_given (FinishReason.other s) = not (is_empty s)
is_given _ = true

-- `mapFinishReason`
unfoldable pub map_finish_reason : String → FinishReason
map_finish_reason reason =
    if text_beq reason "stop"
    then FinishReason.stop
    else if text_beq reason "length"
    then FinishReason.length
    else if text_beq reason "tool_calls"
    then FinishReason.tool_calls
    else if text_beq reason "content_filter"
    then FinishReason.content_filter
    else FinishReason.other reason

-- The tokens of a usage; the counts that the protocol does not send are zero.
abbrev pub usage_of : WireUsage → Usage
usage_of u = record {
  input_tokens = u.prompt_tokens;
  output_tokens = u.completion_tokens;
  reasoning_tokens = pos 0;
  cache_read_tokens = pos 0;
  cache_write_tokens = pos 0;
  total_tokens = u.total_tokens;
}

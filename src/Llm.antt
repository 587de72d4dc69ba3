-- ===== src/Llm.antt =====
-- pkg/ai/llm/llm.go: the messages, tool calls and responses that the components exchange, and the
-- provider interface.
use ash_jazz_ai_agent.Prelude.{String, Bool, true, false, List, Option}
use ash_jazz_ai_agent.Prelude.Int.{ℤ}
use ash_jazz_ai_agent.Errors.{Error}
use ash_jazz_ai_agent.Json.{Map, Float64}

pub data Role : Type 0 where
  system user assistant tool : Role

pub record Message : Type 0 where
  pub role : Role
  pub content : String
  pub name : String
  pub tool_call_id : String

pub record Usage : Type 0 where
  pub input_tokens : ℤ
  pub output_tokens : ℤ
  pub reasoning_tokens : ℤ
  pub cache_read_tokens : ℤ
  pub cache_write_tokens : ℤ
  pub total_tokens : ℤ

pub record Tool : Type 0 where
  pub name : String
  pub description : String
  pub parameters : Map
  pub strict : Bool

pub record ToolCall : Type 0 where
  pub id : String
  pub name : String
  pub arguments : Map

pub record ToolResult : Type 0 where
  pub tool_call_id : String
  pub name : String
  pub content : String
  pub is_error : Bool

pub record StructuredOutput : Type 0 where
  pub name : String
  pub schema : Map
  pub strict : Bool

pub record ChatRequest : Type 0 where
  pub model : String
  pub messages : List Message
  pub tools : List Tool
  pub temperature : Option Float64
  pub max_tokens : ℤ
  pub structured_output : Option StructuredOutput
  pub reasoning_effort : String
  pub stream : Bool

pub record ProviderCapabilities : Type 0 where
  pub tool_calling : Bool
  pub strict_structured_out : Bool
  pub streaming : Bool
  pub streaming_tool_call : Bool
  pub reasoning_effort : Bool
  pub prompt_caching : Bool
  pub vision : Bool

abbrev pub no_capabilities : ProviderCapabilities
no_capabilities = record {
  tool_calling = false;
  strict_structured_out = false;
  streaming = false;
  streaming_tool_call = false;
  reasoning_effort = false;
  prompt_caching = false;
  vision = false;
}

-- A reason is a string; any text but the four constants is `other`.
pub data FinishReason : Type 0 where
  stop length tool_calls content_filter : FinishReason
  other : String → FinishReason

abbrev pub is_tool_call : FinishReason → Bool
is_tool_call FinishReason.tool_calls = true
is_tool_call _ = false

pub record ChatChunk : Type 0 where
  pub delta_content : String
  pub delta_tool_call : Option ToolCall
  pub finish_reason : FinishReason
  pub usage : Option Usage
  pub failure : Option Error

pub record ChatResponse : Type 0 where
  pub content : String
  pub model : String
  pub usage : Usage
  pub finish_reason : FinishReason
  pub tool_calls : List ToolCall

-- llm.Provider: an interface, implemented by adapters. A call acts on the world outside, and returns
-- a response pointer and an error, each of which may be nil. `Stream` is what stands for the channel.
pub record Provider (W Stream : Type 0) : Type 0 where
  pub name : String
  pub capabilities : String → ProviderCapabilities
  pub chat : Option ChatRequest → W → W × Option ChatResponse × Option Error
  pub chat_stream : Option ChatRequest → W → W × Option Stream × Option Error

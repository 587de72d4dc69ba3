-- ===== src/FakeProvider.antt =====
-- pkg/ai/llm/testutil/fake_provider.go. `before` is what ctx.Err() returns when a method starts, and
-- `ended n` what it returns in front of the n-th chunk of a stream. A nil map is none.
pub mod Streaming
pub mod Tests
use ash_jazz_ai_agent.Prelude.{
  ℕ, suc, String, List, [], ◌∷◌, map, length, Option, none, some, if◌then◌else◌,
}
use ash_jazz_ai_agent.Prelude.Dict.{Dict, lookup, text_key}
use ash_jazz_ai_agent.Prelude.Text.{is_empty}
use ash_jazz_ai_agent.Errors.{Error, errorf}
use ash_jazz_ai_agent.Json.{clone_map}
use ash_jazz_ai_agent.Llm.{ChatChunk, ChatRequest, ChatResponse, ProviderCapabilities, ToolCall}
use ash_jazz_ai_agent.OpenAi.Stream.{failed_chunk}

pub record FakeProviderConfig : Type 0 where
  pub name : String
  pub default_capabilities : ProviderCapabilities
  pub capabilities : Option (Dict String ProviderCapabilities)
  pub chat_responses : Option (Dict String ChatResponse)
  pub chat_errors : Option (Dict String (Option Error))
  pub stream_chunks : Option (Dict String (List ChatChunk))
  pub stream_errors : Option (Dict String (Option Error))

pub record FakeProvider : Type 0 where
  pub name : String
  pub default_capabilities : ProviderCapabilities
  pub capabilities : Dict String ProviderCapabilities
  pub chat_responses : Dict String ChatResponse
  pub chat_errors : Dict String (Option Error)
  pub stream_chunks : Dict String (List ChatChunk)
  pub stream_errors : Dict String (Option Error)

abbrev pub clone_call : ToolCall → ToolCall
clone_call call = record call { arguments = clone_map call.arguments }

abbrev clone_some_call : Option ToolCall → Option ToolCall
clone_some_call none = none
clone_some_call (some call) = some (clone_call call)

abbrev pub clone_chat_response : ChatResponse → ChatResponse
clone_chat_response r = record r { tool_calls = map clone_call r.tool_calls }

abbrev pub clone_chat_chunk : ChatChunk → ChatChunk
clone_chat_chunk chunk = record chunk { delta_tool_call = clone_some_call chunk.delta_tool_call }

-- The entries of a map, each copied; a nil map gives an empty one.
abbrev clone_entries {ℓ} : {A : Type ℓ} → (A → A) → Option (Dict String A) → Dict String A
clone_entries clone none = []
clone_entries clone (some entries) = map (λ entry. (entry.0, clone entry.1)) entries

abbrev pub clone_capabilities_map :
    Option (Dict String ProviderCapabilities) → Dict String ProviderCapabilities
clone_capabilities_map input = clone_entries (λ c. c) input

abbrev pub clone_chat_response_map : Option (Dict String ChatResponse) → Dict String ChatResponse
clone_chat_response_map input = clone_entries clone_chat_response input

abbrev pub clone_error_map : Option (Dict String (Option Error)) → Dict String (Option Error)
clone_error_map input = clone_entries (λ e. e) input

abbrev pub clone_stream_chunk_map :
    Option (Dict String (List ChatChunk)) → Dict String (List ChatChunk)
clone_stream_chunk_map input = clone_entries (map clone_chat_chunk) input

unfoldable pub new_fake_provider : FakeProviderConfig → FakeProvider
new_fake_provider config = record {
  name = if is_empty config.name then "fake" else config.name;
  default_capabilities = config.default_capabilities;
  capabilities = clone_capabilities_map config.capabilities;
  chat_responses = clone_chat_response_map config.chat_responses;
  chat_errors = clone_error_map config.chat_errors;
  stream_chunks = clone_stream_chunk_map config.stream_chunks;
  stream_errors = clone_error_map config.stream_errors;
}

abbrev or_default {ℓ} : {A : Type ℓ} → A → Option A → A
or_default default none = default
or_default default (some a) = a

unfoldable pub fake_capabilities : FakeProvider → String → ProviderCapabilities
unfolding lookup
fake_capabilities p model = or_default p.default_capabilities (lookup model p.capabilities)

abbrev answer : String → Option ChatResponse → Option ChatResponse × Option Error
answer model none =
    (none, some (errorf "fake provider: no chat response for model %q" (model ∷ [])))
answer model (some response) = (some (clone_chat_response response), none)

abbrev unless_error {ℓ} :
    {A : Type ℓ} → Option (Option Error) → Option A × Option Error → Option A × Option Error
unless_error (some e) result = (none, e)
unless_error none result = result

unfoldable pub fake_chat :
    FakeProvider → Option Error → Option ChatRequest → Option ChatResponse × Option Error
unfolding lookup
fake_chat p (some ended) req = (none, some ended)
fake_chat p none none = (none, some (errorf "fake provider: nil chat request" []))
fake_chat p none (some req) =
    unless_error (lookup req.model p.chat_errors)
      (answer req.model (lookup req.model p.chat_responses))

-- The chunks that the goroutine of a stream sends, from its n-th on.
unfoldable pub send_chunks : (ℕ → Option Error) → ℕ → List ChatChunk → List ChatChunk
send_chunks ended n [] = []
send_chunks ended n (chunk ∷ chunks) =
    let later = send_chunks ended (suc n) chunks in
    elim (ended n) [ some e ↦ failed_chunk e ∷ [] | none ↦ clone_chat_chunk chunk ∷ later ]

-- A channel: the size of its buffer, and what is sent on it before it is closed.
pub record Channel : Type 0 where
  pub buffer : ℕ
  pub chunks : List ChatChunk

abbrev opened :
    (ℕ → Option Error) → String → Option (List ChatChunk) → Option Channel × Option Error
unfolding send_chunks
opened ended model none =
    (none, some (errorf "fake provider: no stream chunks for model %q" (model ∷ [])))
opened ended model (some chunks) =
    (some (record { buffer = length chunks; chunks = send_chunks ended 0 chunks }), none)

unfoldable pub fake_chat_stream :
    FakeProvider
    → Option Error
    → (ℕ → Option Error)
    → Option ChatRequest
    → Option Channel × Option Error
unfolding lookup send_chunks
fake_chat_stream p (some e) ended req = (none, some e)
fake_chat_stream p none ended none = (none, some (errorf "fake provider: nil stream request" []))
fake_chat_stream p none ended (some req) =
    unless_error (lookup req.model p.stream_errors)
      (opened ended req.model (lookup req.model p.stream_chunks))

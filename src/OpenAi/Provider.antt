-- ===== src/OpenAi/Provider.antt =====
-- pkg/ai/llm/openai/provider.go: Chat and ChatStream. `W` is the world that the HTTP client acts on, and
-- a channel of chunks is the body that its goroutine reads. net/http and the JSON codec are parameters.
pub mod Faults
pub mod Bodies
pub mod Secrecy
pub mod Tests
use ash_jazz_ai_agent.Prelude.{
  ℕ, String, Bool, true, false, List, [], ◌∷◌, Option, none, some, if◌then◌else◌,
}
use ash_jazz_ai_agent.Prelude.Text.{append, is_blank}
use ash_jazz_ai_agent.Errors.{Error, Sentinel, sentinel, errorf, wrapf, is, Result, ok, err}
use ash_jazz_ai_agent.Errors
use ash_jazz_ai_agent.Json.{Map}
use ash_jazz_ai_agent.Llm.{ChatChunk, ChatRequest, ChatResponse, Message}
use ash_jazz_ai_agent.Llm
use ash_jazz_ai_agent.OpenAi.Wire.{ErrorBody, StreamEvent, WireRequest, WireResponse}
use ash_jazz_ai_agent.OpenAi.Failures.{Response, classify_http_status_error}
use ash_jazz_ai_agent.OpenAi.Mapping.{map_chat_request, map_tool_calls, decoded_response}
use ash_jazz_ai_agent.OpenAi.Settings.{Provider, capabilities_of, provider_name}
use ash_jazz_ai_agent.OpenAi.Stream.{stream_chat_chunks}

-- What the code sets of an http.Request.
pub record HttpRequest : Type 0 where
  pub method : String
  pub url : String
  pub authorization : String
  pub content_type : String
  pub body : String

-- The code that the adapter calls: json's encoder and decoders, http.NewRequestWithContext (its error
-- for a context that may be nil and a URL), Client.Do, bufio.Scanner (its lines and its error) and
-- Body.Close. net/http gives every response a body.
pub record Client (W Body : Type 0) : Type 0 where
  pub encode : WireRequest → Result String
  pub create_error : Bool → String → Option Error
  pub do_request : HttpRequest → W → W × Result (Response Body)
  pub decode_error : Body → Result ErrorBody
  pub decode_response : Option Body → Result WireResponse
  pub unmarshal : String → Result Map
  pub unmarshal_event : String → Result StreamEvent
  pub scan : Option Body → List String × Option Error
  pub close : Option Body → W → W

-- A context, by what its Err returns before the request and after it.
pub record RequestContext : Type 0 where
  pub before : Option Error
  pub after : Option Error

abbrev pub is_given_context : Option RequestContext → Bool
is_given_context none = false
is_given_context (some ctx) = true

abbrev pub err_before : Option RequestContext → Option Error
err_before none = none
err_before (some ctx) = ctx.before

abbrev pub err_after : Option RequestContext → Option Error
err_after none = none
err_after (some ctx) = ctx.after

abbrev pub is_nil : List Message → Bool
is_nil [] = true
is_nil (m ∷ ms) = false

abbrev required : String → Option Error
required format = some (errorf format [])

unfoldable pub validate_chat_request : Option ChatRequest → Option Error
validate_chat_request none = required "openai chat request is required"
validate_chat_request (some req) =
    if is_blank req.model
    then required "openai chat request model is required"
    else if is_nil req.messages
    then required "openai chat request messages are required"
    else none

-- `contextError`, of what ctx.Err() returns (nil for a nil context).
unfoldable pub context_error : Option Error → Option Error
unfolding is
context_error none = none
context_error (some e) =
    if is e Sentinel.deadline_exceeded
    then some (
        wrapf "openai request deadline exceeded: %w" []
          (Errors.join (sentinel Sentinel.upstream) e))
    else some e

-- The error of validateChatRequest, or else that of contextError.
abbrev first_error : Option Error → Option Error → Option Error
first_error (some e) later = some e
first_error none later = later

unfoldable pub check_request : Option RequestContext → Option ChatRequest → Option Error
unfolding validate_chat_request context_error
check_request ctx req = first_error (validate_chat_request req) (context_error (err_before ctx))

abbrev unsent : Error → Option Error → Error
unsent e (some ended) = ended
unsent e none = wrapf "send openai chat request: %w" [] (Errors.join (sentinel Sentinel.upstream) e)

-- A response and an error, one of which is nil, behind a world.
abbrev pub returned : {W A : Type 0} → W → Result A → W × Option A × Option Error
returned w (ok a) = (w, some a, none)
returned w (err e) = (w, none, some e)

-- A channel of chunks, by the body that its goroutine reads.
abbrev pub Channel : Type 0 → Type 0
Channel Body = Option Body

module _ {W Body : Type 0} where
  abbrev pub http_request : Provider (Client W Body) → String → HttpRequest
  http_request p body = record {
    method = "POST";
    url = append p.base_url "/chat/completions";
    authorization = append "Bearer " p.api_key;
    content_type = "application/json";
    body = body;
  }

  abbrev done : Option RequestContext → W × Result (Response Body) → W × Result (Response Body)
  done ctx (w, err e) = (w, err (unsent e (context_error (err_after ctx))))
  done ctx (w, ok resp) = (w, ok resp)

  abbrev created :
      Provider (Client W Body)
      → Option RequestContext
      → String
      → W
      → Option Error
      → W × Result (Response Body)
  created p ctx body w (some e) = (w, err (wrapf "create openai chat request: %w" [] e))
  created p ctx body w none = done ctx (p.http_client.do_request (http_request p body) w)

  abbrev encoded :
      Provider (Client W Body)
      → Option RequestContext
      → W
      → Result String
      → W × Result (Response Body)
  encoded p ctx w (err e) = (w, err (wrapf "encode openai chat request: %w" [] e))
  encoded p ctx w (ok body) =
      let url = append p.base_url "/chat/completions" in
      created p ctx body w (p.http_client.create_error (is_given_context ctx) url)

  unfoldable pub do_chat_request :
      Provider (Client W Body)
      → Option RequestContext
      → ChatRequest
      → Bool
      → W
      → W × Result (Response Body)
  unfolding map_chat_request context_error
  do_chat_request p ctx req stream w =
      encoded p ctx w (p.http_client.encode (map_chat_request req stream))

  abbrev unless_failed : Client W Body → Response Body → Option Error → Result ChatResponse
  unless_failed client resp (some e) = err e
  unless_failed client resp none =
      decoded_response client.unmarshal (client.decode_response resp.body)

  unfoldable pub parse_chat_response : Client W Body → Response Body → Result ChatResponse
  unfolding classify_http_status_error map_tool_calls
  parse_chat_response client resp =
      unless_failed client resp (classify_http_status_error client.decode_error resp)

  -- The deferred Close runs after the response is read.
  abbrev answered :
      Client W Body → W × Result (Response Body) → W × Option ChatResponse × Option Error
  answered client (w, err e) = (w, none, some e)
  answered client (w, ok resp) =
      returned (client.close resp.body w) (parse_chat_response client resp)

  unfoldable pub chat :
      Provider (Client W Body)
      → Option RequestContext
      → Option ChatRequest
      → W
      → W × Option ChatResponse × Option Error
  unfolding check_request do_chat_request parse_chat_response
  chat p ctx none w = (w, none, check_request ctx none)
  chat p ctx (some req) w = elim (check_request ctx (some req)) [
    | some e ↦ (w, none, some e)
    | none ↦ answered p.http_client (do_chat_request p ctx req false w)
  ]

  abbrev opened :
      Client W Body → W → Response Body → Option Error → W × Option (Channel Body) × Option Error
  opened client w resp (some e) = (client.close resp.body w, none, some e)
  opened client w resp none = (w, some resp.body, none)

  abbrev streamed :
      Client W Body → W × Result (Response Body) → W × Option (Channel Body) × Option Error
  streamed client (w, err e) = (w, none, some e)
  streamed client (w, ok resp) =
      opened client w resp (classify_http_status_error client.decode_error resp)

  unfoldable pub chat_stream :
      Provider (Client W Body)
      → Option RequestContext
      → Option ChatRequest
      → W
      → W × Option (Channel Body) × Option Error
  unfolding check_request do_chat_request classify_http_status_error
  chat_stream p ctx none w = (w, none, check_request ctx none)
  chat_stream p ctx (some req) w = elim (check_request ctx (some req)) [
    | some e ↦ (w, none, some e)
    | none ↦ streamed p.http_client (do_chat_request p ctx req true w)
  ]

  abbrev drained :
      Client W Body → (ℕ → Bool) → Option Error → List String × Option Error → List ChatChunk
  drained client accepts ended (lines, scan_err) =
      stream_chat_chunks client.unmarshal client.unmarshal_event accepts ended scan_err lines

  -- The goroutine of a channel, run to its end: the deferred Close, and the chunks of the channel.
  unfoldable pub drain :
      Client W Body → (ℕ → Bool) → Option Error → (Channel Body) → W → W × List ChatChunk
  unfolding stream_chat_chunks
  drain client accepts ended body w =
      (client.close body w, drained client accepts ended (client.scan body))

  -- The adapter as an llm.Provider, in one context.
  abbrev pub as_provider :
      Provider (Client W Body) → Option RequestContext → Llm.Provider W (Channel Body)
  as_provider p ctx = record {
    name = provider_name;
    capabilities = λ model. capabilities_of (some p) model;
    chat = λ req w. chat p ctx req w;
    chat_stream = λ req w. chat_stream p ctx req w;
  }

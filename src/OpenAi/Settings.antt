-- ===== src/OpenAi/Settings.antt =====
-- pkg/ai/llm/openai/provider.go: the configuration, NewProvider, Name and Capabilities. `Client` stands
-- for *http.Client, url.Parse is a parameter that gives the scheme and the host, and the copy of a map
-- is the identity on values.
pub mod Assembly
pub mod Tests
use ash_jazz_ai_agent.Prelude.{
  String, Bool, true, false, ◌||◌, List, [], ◌∷◌, Option, none, some, ◌≡◌, if◌then◌else◌,
}
use ash_jazz_ai_agent.Prelude.Dict.{Dict, lookup, text_key}
use ash_jazz_ai_agent.Prelude.Int.{ℤ, pos}
use ash_jazz_ai_agent.Prelude.Substring.{trim_right_rune}
use ash_jazz_ai_agent.Prelude.Text.{is_empty, trim_space}
use ash_jazz_ai_agent.Errors.{Error, errorf, wrapf, Result, ok, err}
use ash_jazz_ai_agent.Llm.{ProviderCapabilities, no_capabilities}

pub record Config (Client : Type 0) : Type 0 where
  pub base_url : String
  pub api_key : String
  pub default_model : String
  pub http_client : Option Client
  pub capabilities : Dict String ProviderCapabilities

pub record Provider (Client : Type 0) : Type 0 where
  pub base_url : String
  pub api_key : String
  pub default_model : String
  pub http_client : Client
  pub capabilities : Dict String ProviderCapabilities

-- 60 seconds, in nanoseconds.
abbrev pub default_request_timeout : ℤ
default_request_timeout = pos 60_000_000_000

abbrev pub provider_name : String
provider_name = "openai"

abbrev pub default_capabilities : ProviderCapabilities
default_capabilities = record no_capabilities {
  tool_calling = true;
  strict_structured_out = true;
  streaming = true;
  streaming_tool_call = true;
}

abbrev or_default_capabilities : Option ProviderCapabilities → ProviderCapabilities
or_default_capabilities none = default_capabilities
or_default_capabilities (some c) = c

-- `Capabilities`; a nil provider has none.
unfoldable pub capabilities_of :
    {Client : Type 0} → Option (Provider Client) → String → ProviderCapabilities
unfolding lookup
capabilities_of none model = no_capabilities
capabilities_of (some p) model = or_default_capabilities (lookup model p.capabilities)

abbrev pub required : String → Error
required format = errorf format []

module _ (parse_url : String → Result (String × String)) where
  abbrev based : String → Result (String × String) → Result String
  based trimmed (err e) = err (wrapf "openai config baseURL is invalid: %w" [] e)
  based trimmed (ok (scheme, host)) =
      if is_empty scheme || is_empty host
      then err (required "openai config baseURL must include scheme and host")
      else ok (trim_right_rune 0x2f trimmed)

  unfoldable pub normalize_base_url : String → Result String
  unfolding trim_right_rune
  normalize_base_url raw =
      let trimmed = trim_space raw in
      if is_empty trimmed
      then err (required "openai config baseURL is required")
      else based trimmed (parse_url trimmed)

  module _ {Client : Type 0} (client_with_timeout : ℤ → Client) where
    abbrev or_new_client : Option Client → Client
    or_new_client none = client_with_timeout default_request_timeout
    or_new_client (some client) = client

    abbrev assembled : Config Client → Result String → Result (Provider Client)
    assembled config (err e) = err e
    assembled config (ok base_url) =
        if is_empty (trim_space config.api_key)
        then err (required "openai config apiKey is required")
        else if is_empty (trim_space config.default_model)
        then err (required "openai config default model is required")
        else ok (record {
          base_url = base_url;
          api_key = trim_space config.api_key;
          default_model = trim_space config.default_model;
          http_client = or_new_client config.http_client;
          capabilities = config.capabilities;
        })

    unfoldable pub new_provider : Config Client → Result (Provider Client)
    unfolding normalize_base_url
    new_provider config = assembled config (normalize_base_url config.base_url)

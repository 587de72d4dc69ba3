-- ===== src/OpenAi/Settings/Tests.antt =====
-- A configuration with spaces and a slash to trim.
use ash_jazz_ai_agent.Prelude.{String, false, [], none, ◌≡◌, refl}
use ash_jazz_ai_agent.Prelude.Int.{ℤ}
use ash_jazz_ai_agent.Prelude.Text.{is_empty, trim_space}
use ash_jazz_ai_agent.Errors.{Result, ok}
use ash_jazz_ai_agent.OpenAi.Settings.{Config, Provider, default_request_timeout, new_provider}
use ash_jazz_ai_agent.OpenAi.Settings.Assembly.{ends_in, new_provider-IsReady}

abbrev parse_url : String → Result (String × String)
parse_url raw = ok ("https", "api.example")

-- A client is its timeout.
abbrev client_with_timeout : ℤ → ℤ
client_with_timeout timeout = timeout

abbrev config : Config ℤ
config = record {
  base_url = " https://api.example/v1/ ";
  api_key = " key\n";
  default_model = "small";
  http_client = none;
  capabilities = [];
}

abbrev provider : Provider ℤ
provider = record {
  base_url = "https://api.example/v1";
  api_key = "key";
  default_model = "small";
  http_client = default_request_timeout;
  capabilities = [];
}

is_made : new_provider parse_url client_with_timeout config ≡ ok provider
unfolding new_provider trim_space
is_made = refl

new_provider-IsReady_example :
    (ends_in 0x2f provider.base_url ≡ false)
    × (provider.api_key ≡ trim_space config.api_key)
    × (is_empty provider.api_key ≡ false)
    × (provider.default_model ≡ trim_space config.default_model)
    × (is_empty provider.default_model ≡ false)
new_provider-IsReady_example =
    new_provider-IsReady parse_url client_with_timeout config provider is_made

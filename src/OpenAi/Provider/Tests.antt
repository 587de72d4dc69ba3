-- ===== src/OpenAi/Provider/Tests.antt =====
-- Chat over a world that counts the open bodies, and its theorems at concrete inputs.
use ash_jazz_ai_agent.Prelude.{
  not, ◌&&◌, ℕ, ◌+◌, ◌-◌, true, false, String, [], ◌∷◌, Option, none, some, ◌≡◌, refl, sym, ap,
  arith, if◌then◌else◌,
}
use ash_jazz_ai_agent.Prelude.Int.{pos}
use ash_jazz_ai_agent.Prelude.Text.{trim_space}
use ash_jazz_ai_agent.Errors.{Error, Sentinel, sentinel, errorf, wrapf, is, Result, ok, err}
use ash_jazz_ai_agent.Json.{Fields}
use ash_jazz_ai_agent.Llm.{ChatRequest, Role}
use ash_jazz_ai_agent.Obs.Identity.{Context}
use ash_jazz_ai_agent.Resilience.CircuitBreaker.{State, CircuitBreaker}
use ash_jazz_ai_agent.Resilience.ProviderWrapper.{ProviderWrapper, Times}
use ash_jazz_ai_agent.Resilience.ProviderWrapper
use ash_jazz_ai_agent.OpenAi.Failures.{Response}
use ash_jazz_ai_agent.OpenAi.Settings.{Provider}
use ash_jazz_ai_agent.OpenAi.Provider.{
  Client, Channel, HttpRequest, RequestContext, check_request, do_chat_request, chat, chat_stream,
  drain, as_provider,
}
use ash_jazz_ai_agent.OpenAi.Provider.Faults.{
  ends_upstream, has_ended, is_sendable, chat_unsent, wrapped_chat_status,
}
use ash_jazz_ai_agent.OpenAi.Provider.Bodies.{is_open, IsCounted, open_bodies-chat_stream}
use ash_jazz_ai_agent.OpenAi.Provider.Secrecy.{with_key, chat_with_key}

abbrev answer : Response String
answer = record { status_code = pos 503; body = some "overloaded" }

abbrev unreadable : Error
unreadable = errorf "not JSON" []

abbrev client_doing : (HttpRequest → ℕ → ℕ × Result (Response String)) → Client ℕ String
client_doing act = record {
  encode = λ r. ok "{}";
  create_error = λ given url. if given then none else some (errorf "nil context" []);
  do_request = act;
  decode_error = λ body. err unreadable;
  decode_response = λ body. err unreadable;
  unmarshal = λ text. ok (some Fields.no_field);
  unmarshal_event = λ text. err unreadable;
  scan = λ body. ("data: [DONE]" ∷ [], none);
  close = λ body w. w - 1;
}

-- A client whose every request is answered with a 503, and one that gets no answer.
abbrev answering : Client ℕ String
answering = client_doing (λ r w. (w + 1, ok answer))

abbrev failing : Client ℕ String
failing = client_doing (λ r w. (w, err (errorf "connection refused" [])))

abbrev provider_with : Client ℕ String → Provider (Client ℕ String)
provider_with client = record {
  base_url = "https://api.example";
  api_key = "key";
  default_model = "small";
  http_client = client;
  capabilities = [];
}

abbrev live : Option RequestContext
live = some (record { before = none; after = none })

abbrev expired : Option RequestContext
expired = some (record {
  before = some (sentinel Sentinel.deadline_exceeded);
  after = some (sentinel Sentinel.deadline_exceeded);
})

abbrev request : ChatRequest
request = record {
  model = "small";
  messages = record { role = Role.user; content = "hi"; name = ""; tool_call_id = "" } ∷ [];
  tools = [];
  temperature = none;
  max_tokens = pos 0;
  structured_output = none;
  reasoning_effort = "";
  stream = false;
}

abbrev deadline : Error
deadline = sentinel Sentinel.deadline_exceeded

abbrev timed_out : Error
timed_out =
    wrapf "openai request deadline exceeded: %w" []
      (Error.join (sentinel Sentinel.upstream) deadline)

is_timed_out : check_request expired (some request) ≡ some timed_out
unfolding check_request trim_space
is_timed_out = refl

unsendable : (is_sendable (some request) && not (has_ended expired)) ≡ false
unfolding trim_space
unsendable = refl

chat_unsent_example :
    (e : Error) × (chat (provider_with answering) expired (some request) 0 ≡ (0, none, some e))
    × (chat_stream (provider_with answering) expired (some request) 0 ≡ (0, none, some e))
    × (is e Sentinel.upstream ≡ (is_sendable (some request) && ends_upstream (some deadline)))
chat_unsent_example = chat_unsent (provider_with answering) expired (some request) 0 unsendable

is_checked : check_request live (some request) ≡ none
unfolding check_request trim_space
is_checked = refl

is_answered : do_chat_request (provider_with answering) live request false 0 ≡ (1, ok answer)
unfolding do_chat_request
is_answered = refl

abbrev wrapper : ProviderWrapper ℕ (Channel String)
wrapper = record {
  provider = some (as_provider (provider_with answering) live);
  has_breaker = true;
  tracer = none;
  feature = "";
}

abbrev breaker : CircuitBreaker
breaker = record {
  config = record {
    failure_threshold = pos 1;
    recovery_timeout = pos 10;
    half_open_max_probe = pos 1;
  };
  state = State.closed;
  consecutive_failures = 0;
  opened_at = 0;
  half_open_successes = 0;
  half_open_in_flight = 0;
}

abbrev times : Times
times = record { started = 100; admitted = 101; finished = 102; ended = 103 }

abbrev around : Context
around = record { err = none; identity = none }

wrapped_chat_status_example :
    let (b', _, got, _) =
      ProviderWrapper.chat (some wrapper) times around (some request) breaker 0 in
    (b'.state ≡ State.opened) × (b'.consecutive_failures ≡ 0) × (got ≡ none)
wrapped_chat_status_example =
    wrapped_chat_status wrapper (provider_with answering) live times around request breaker 0 1
      answer refl refl refl refl is_checked is_answered refl

abbrev count : ℕ → ℕ
count w = w

counted : IsCounted answering count
counted = record {
  answers = λ r w w' resp h. ap (λ a. a.0) (sym h);
  fails = λ r w w' e h. ground (arith, h);
  closes = λ body w. refl;
}

open_bodies-chat_stream_example :
    let (w', got, _) = chat_stream (provider_with answering) live (some request) 0 in
    (count w' ≡ count 0 + is_open got)
    × (count (drain answering (λ n. true) none (some "x") 1).0 ≡ count 1 - 1)
open_bodies-chat_stream_example =
    open_bodies-chat_stream (provider_with answering) count counted live (some request) 0
      (λ n. true) none (some "x") 1

chat_with_key_example :
    (chat (with_key (provider_with answering) "other") live (some request) 0
      ≡ chat (provider_with answering) live (some request) 0)
    × (chat_stream (with_key (provider_with answering) "other") live (some request) 0
        ≡ chat_stream (provider_with answering) live (some request) 0)
chat_with_key_example =
    chat_with_key (provider_with answering) "other" live (some request) 0 (λ r a a' w. refl)

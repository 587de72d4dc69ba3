-- ===== src/Resilience/ProviderWrapper/Tests.antt =====
-- Runs of the wrapper over a world that counts the provider's calls and keeps the traces.
use ash_jazz_ai_agent.Prelude.{
  ℕ, suc, ◌≡◌, refl, true, false, List, [], ◌∷◌, Option, none, some, length,
}
use ash_jazz_ai_agent.Prelude.Int.{pos, sub_time}
use ash_jazz_ai_agent.Prelude.Text.{trim_space}
use ash_jazz_ai_agent.Errors.{Error, Sentinel, sentinel, errorf, wrapf, join}
use ash_jazz_ai_agent.Llm.{ChatRequest, ChatResponse, FinishReason, Provider, no_capabilities}
use ash_jazz_ai_agent.Obs.Identity.{Context, empty_identity}
use ash_jazz_ai_agent.Obs.Trace.{Trace, Tracer}
use ash_jazz_ai_agent.Resilience.CircuitBreaker.{State, CircuitBreaker}
use ash_jazz_ai_agent.Resilience.OutcomeTrace.{ProviderOutcomeObservation}
use ash_jazz_ai_agent.Resilience.ProviderWrapper.{ProviderWrapper, Times, chat}

abbrev Calls : Type 0
Calls = ℕ × List Trace

abbrev answer : ChatResponse
answer = record {
  content = "hi";
  model = "small";
  usage = record {
    input_tokens = pos 1;
    output_tokens = pos 2;
    reasoning_tokens = pos 0;
    cache_read_tokens = pos 0;
    cache_write_tokens = pos 0;
    total_tokens = pos 3;
  };
  finish_reason = FinishReason.stop;
  tool_calls = [];
}

abbrev request : Option ChatRequest
request = some (record {
  model = "large";
  messages = [];
  tools = [];
  temperature = none;
  max_tokens = pos 0;
  structured_output = none;
  reasoning_effort = "";
  stream = false;
})

abbrev provider_ending : Option Error → Provider Calls ℕ
provider_ending e = record {
  name = "fake";
  capabilities = λ _. no_capabilities;
  chat = λ _ w. ((suc w.0, w.1), some answer, e);
  chat_stream = λ _ w. ((suc w.0, w.1), some 0, e);
}

abbrev keeping : Tracer Calls
keeping = record { record_trace = λ t w. ((w.0, t ∷ w.1), true) }

abbrev wrapper_ending : Option Error → ProviderWrapper Calls ℕ
wrapper_ending e = record {
  provider = some (provider_ending e);
  has_breaker = true;
  tracer = some keeping;
  feature = "qa";
}

abbrev context : Context
context = record {
  err = none;
  identity = some (record empty_identity { ai_trace_id = "t-1"; request_id = "r-1" });
}

abbrev times : Times
times = record { started = 100; admitted = 101; finished = 102; ended = 103 }

abbrev breaker : CircuitBreaker
breaker = record {
  config = record {
    failure_threshold = pos 1;
    recovery_timeout = pos 10;
    half_open_max_probe = pos 1;
  };
  state = State.closed;
  consecutive_failures = 0;
  opened_at = 0;
  half_open_successes = 0;
  half_open_in_flight = 0;
}

abbrev tripped : CircuitBreaker
tripped = record breaker { state = State.opened; opened_at = 95 }

abbrev limited : Error
limited =
    wrapf "status %s: %w" ("429" ∷ [])
      (join (sentinel Sentinel.upstream) (sentinel Sentinel.rate_limit))

abbrev bad_request : Error
bad_request = errorf "status 400" []

-- The provider has run once, and its one trace says that the call was degraded.
degraded_run :
    let (b', w', response, e) =
      chat (some (wrapper_ending none)) times context request breaker (0, []) in
    (b' ≡ breaker) × (w'.0 ≡ 1) × (length w'.1 ≡ 1) × (response ≡ some answer) × (e ≡ none)
unfolding chat trim_space
degraded_run = (refl, refl, refl, refl, refl)

refused_run : (chat (some (wrapper_ending none)) times context request tripped (0, [])).1.0 ≡ 0
unfolding chat sub_time trim_space
refused_run = refl

abbrev observed : ProviderOutcomeObservation
observed = record {
  requested_model = "large";
  actual_model = "";
  cause = some limited;
  started_at = 100;
  ended_at = 103;
}

-- ===== src/FakeProvider/Tests.antt =====
-- Runs of the fake provider: a configured error comes before a response, and a stream that is cut off.
use ash_jazz_ai_agent.Prelude.{
  ◌≤◌, ap, length, false, ℕ, suc, zero, [], ◌∷◌, Option, none, some, ◌≡◌, refl,
}
use ash_jazz_ai_agent.Prelude.Int.{pos}
use ash_jazz_ai_agent.Errors.{Error, Sentinel, sentinel}
use ash_jazz_ai_agent.Llm.{ChatRequest, no_capabilities}
use ash_jazz_ai_agent.OpenAi.Stream.{empty_chunk, failed_chunk}
use ash_jazz_ai_agent.FakeProvider.Streaming.{fake_chat_stream-fits}
use ash_jazz_ai_agent.FakeProvider.{
  Channel, FakeProvider, new_fake_provider, fake_chat, fake_chat_stream,
}

abbrev provider : FakeProvider
provider = new_fake_provider (record {
  name = "";
  default_capabilities = no_capabilities;
  capabilities = none;
  chat_responses = none;
  chat_errors = some (("m", some (sentinel Sentinel.upstream)) ∷ []);
  stream_chunks = some (("m", empty_chunk ∷ empty_chunk ∷ []) ∷ []);
  stream_errors = none;
})

abbrev request : ChatRequest
request = record {
  model = "m";
  messages = [];
  tools = [];
  temperature = none;
  max_tokens = pos 0;
  structured_output = none;
  reasoning_effort = "";
  stream = false;
}

-- The context ends in front of the second chunk.
abbrev ended : ℕ → Option Error
ended zero = none
ended (suc n) = some (sentinel Sentinel.canceled)

fails : fake_chat provider none (some request) ≡ (none, some (sentinel Sentinel.upstream))
unfolding fake_chat new_fake_provider
fails = refl

cut_off : fake_chat_stream provider none ended (some request) ≡ (
  some (record {
    buffer = 2;
    chunks = empty_chunk ∷ failed_chunk (sentinel Sentinel.canceled) ∷ [];
  }),
  none,
)
unfolding fake_chat_stream new_fake_provider
cut_off = refl

abbrev cut_channel : Channel
cut_channel = record {
  buffer = 2;
  chunks = empty_chunk ∷ failed_chunk (sentinel Sentinel.canceled) ∷ [];
}

opens : (fake_chat_stream provider none ended (some request)).0 ≡ some cut_channel
opens = ap (λ r. r.0) cut_off

fake_chat_stream-fits_example : length cut_channel.chunks ≤ cut_channel.buffer
fake_chat_stream-fits_example =
    fake_chat_stream-fits provider none ended (some request) cut_channel opens

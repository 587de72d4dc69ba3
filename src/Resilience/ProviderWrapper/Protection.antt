-- ===== src/Resilience/ProviderWrapper/Protection.antt =====
-- What the wrapper promises its callers: the provider's answer unchanged, failures counted only
-- when the upstream is at fault, and no call of the provider while the breaker refuses.
use ash_jazz_ai_agent.Prelude.{◌+◌, ◌≡◌, String, true, false, Option, none, some, arith}
use ash_jazz_ai_agent.Prelude.Int.{pos, ◌≤ℤ◌, ltb_ℤ, sub_time}
use ash_jazz_ai_agent.Errors.{Error, Sentinel, is}
use ash_jazz_ai_agent.Llm.{ChatRequest, Provider}
use ash_jazz_ai_agent.Obs.Identity.{Context}
use ash_jazz_ai_agent.Obs.Trace.{Tracer}
use ash_jazz_ai_agent.Resilience.CircuitBreaker.{State, CircuitBreaker, after_call, rejected}
use ash_jazz_ai_agent.Resilience.OutcomeTrace.{requested_model}
use ash_jazz_ai_agent.Resilience.ProviderWrapper.{
  ProviderWrapper, Times, keep_upstream, returned, chat, chat_stream, record_outcome,
}

-- Each lemma is about one call on a wrapper that is fully assembled, with a live context.
module _ {W Stream : Type 0} (p : ProviderWrapper W Stream) (provider : Provider W Stream)
    (has_provider : p.provider ≡ some provider) (has_breaker : p.has_breaker ≡ true) (times : Times)
    (ctx : Context) (live : ctx.err ≡ none) (req : Option ChatRequest) (b : CircuitBreaker)
    (w : W) where
  -- In CLOSED the caller gets the provider's response and error as they are (a response only without
  -- an error), and the breaker counts the error exactly when it is an upstream failure.
  pub chat_closed :
      b.state ≡ State.closed
      → let (_, got, cause) = provider.chat req w in
        let (b', _, response, cause') = chat (some p) times ctx req b w in
        (b' ≡ after_call b times.finished false (keep_upstream cause))
        × (cause' ≡ cause)
        × (response ≡ returned got cause)
  unfolding chat
  chat_closed c = ground arith

  pub chat_stream_closed :
      b.state ≡ State.closed
      → let (_, got, cause) = provider.chat_stream req w in
        let (b', _, chunks, cause') = chat_stream (some p) times ctx req b w in
        (b' ≡ after_call b times.finished false (keep_upstream cause))
        × (cause' ≡ cause)
        × (chunks ≡ returned got cause)
  unfolding chat_stream
  chat_stream_closed c = ground arith

  -- While an OPEN breaker waits for its recovery timeout the provider is not called: nothing but the
  -- trace acts on the world, the breaker stays as it was, and the error is ErrCircuitOpen.
  pub chat_refused :
      b.state ≡ State.opened
      → ltb_ℤ (sub_time times.admitted b.opened_at) b.config.recovery_timeout ≡ true
      → let cause = rejected b.state in
        (chat (some p) times ctx req b w ≡ (
          b,
          record_outcome p b ctx
              (record {
                requested_model = requested_model req;
                actual_model = "";
                cause = some cause;
                started_at = times.started;
                ended_at = times.ended;
              })
              w,
          none,
          some cause,
        ))
        × (is cause Sentinel.circuit_open ≡ true)
  unfolding chat
  chat_refused o h = ground arith

-- A caller's error never trips the breaker: whatever the threshold, the breaker stays CLOSED and its
-- count of failures is empty afterwards.
pub chat_caller_error :
    {W Stream : Type 0} (p : ProviderWrapper W Stream) (provider : Provider W Stream)
    (times : Times) (ctx : Context) (req : Option ChatRequest) (b : CircuitBreaker) (w : W)
    (e : Error)
    → p.provider ≡ some provider
    → p.has_breaker ≡ true
    → ctx.err ≡ none
    → b.state ≡ State.closed
    → (provider.chat req w).2 ≡ some e
    → is e Sentinel.upstream ≡ false
    → let (b', _, response, cause) = chat (some p) times ctx req b w in
      (b' ≡ record b { consecutive_failures = 0 }) × (response ≡ none) × (cause ≡ some e)
unfolding after_call
chat_caller_error p provider times ctx req b w e hp hb live c f u =
    ground (arith, chat_closed p provider hp hb times ctx live req b w c)

-- An upstream failure that completes the threshold trips the breaker, and still reaches the caller.
pub chat_upstream_trips :
    {W Stream : Type 0} (p : ProviderWrapper W Stream) (provider : Provider W Stream)
    (times : Times) (ctx : Context) (req : Option ChatRequest) (b : CircuitBreaker) (w : W)
    (e : Error)
    → p.provider ≡ some provider
    → p.has_breaker ≡ true
    → ctx.err ≡ none
    → b.state ≡ State.closed
    → (provider.chat req w).2 ≡ some e
    → is e Sentinel.upstream ≡ true
    → b.config.failure_threshold ≤ℤ pos (b.consecutive_failures + 1)
    → let (b', _, response, cause) = chat (some p) times ctx req b w in
      (b'.state ≡ State.opened)
      × (b'.opened_at ≡ times.finished)
      × (response ≡ none)
      × (cause ≡ some e)
unfolding after_call
chat_upstream_trips p provider times ctx req b w e hp hb live c f u t =
    ground (arith, chat_closed p provider hp hb times ctx live req b w c)

-- Whether and how a call is traced changes neither the breaker nor what the caller gets.
pub chat_tracer_neutral :
    {W Stream : Type 0} (p : ProviderWrapper W Stream) (tracer : Option (Tracer W))
    (feature : String) (times : Times) (ctx : Context) (req : Option ChatRequest)
    (b : CircuitBreaker) (w : W)
    → let (b1, _, response1, cause1) = chat (some p) times ctx req b w in
      let (b2, _, response2, cause2) =
        chat (some (record p { tracer = tracer; feature = feature })) times ctx req b w in
      (b1 ≡ b2) × (response1 ≡ response2) × (cause1 ≡ cause2)
unfolding chat
chat_tracer_neutral p tracer feature times ctx req b w = ground arith

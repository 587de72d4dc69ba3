-- ===== src/OpenAi/Provider/Faults.antt =====
-- Which failures of Chat count against the provider, and what the circuit breaker makes of them.
use ash_jazz_ai_agent.Prelude.{
  List, [], ◌∷◌, ◌+◌, ltb, not, length, Option-cases, String, Bool, true, false, ◌&&◌, ◌||◌, Option,
  none, some, ◌≡◌, ◌==◌, leb, refl, sym, ◌∙◌, arith, if◌then◌else◌, Bool-cases, inl, inr,
}
use ash_jazz_ai_agent.Prelude.Int.{ℤ, pos, negsuc, leb_ℤ}
use ash_jazz_ai_agent.Errors.{Error, Sentinel, errorf, is, is_any, Result, ok, err}
use ash_jazz_ai_agent.Prelude.Text.{is_blank}
use ash_jazz_ai_agent.Llm.{ChatRequest, Message}
use ash_jazz_ai_agent.Obs.Identity.{Context}
use ash_jazz_ai_agent.Resilience.CircuitBreaker.{State, CircuitBreaker, after_call}
use ash_jazz_ai_agent.Resilience.ProviderWrapper.{ProviderWrapper, Times, keep_upstream}
use ash_jazz_ai_agent.Resilience.ProviderWrapper
use ash_jazz_ai_agent.Resilience.ProviderWrapper.Protection.{chat_closed}
use ash_jazz_ai_agent.OpenAi.Failures.{
  Response, is_success, is_retryable_http_status, classify_http_status_error,
}
use ash_jazz_ai_agent.OpenAi.Wire.{ErrorBody}
use ash_jazz_ai_agent.OpenAi.Mapping.{map_chat_request}
use ash_jazz_ai_agent.OpenAi.Settings.{Provider}
use ash_jazz_ai_agent.OpenAi.Provider.{
  Client, Channel, RequestContext, err_before, check_request, context_error, do_chat_request,
  validate_chat_request, is_nil, http_request, parse_chat_response, chat, chat_stream, as_provider,
}

-- Does a context that ended with this error count as an upstream failure? A deadline does.
abbrev pub ends_upstream : Option Error → Bool
ends_upstream none = false
ends_upstream (some e) = is e Sentinel.deadline_exceeded || is e Sentinel.upstream

-- The statuses of a provider that is overloaded or broken: 429, and from 500 on.
abbrev pub counts_against : ℤ → Bool
counts_against (pos n) = n == 429 || leb 500 n
counts_against (negsuc n) = false

retryable-counts : (status : ℤ) → is_retryable_http_status status ≡ counts_against status
retryable-counts (pos n) = ground arith
retryable-counts (negsuc n) = ground arith

classify_refused :
    {Body : Type 0} (decode : Body → Result ErrorBody) (resp : Response Body)
    → is_success resp.status_code ≡ false
    → (e : Error) × (classify_http_status_error decode resp ≡ some e)
      × (is e Sentinel.upstream ≡ counts_against resp.status_code)
unfolding classify_http_status_error is
classify_refused decode resp s = elim (Bool-cases (is_retryable_http_status resp.status_code)) [
  | inl r ↦ rw (s, r) (_, refl, sym r ∙ retryable-counts resp.status_code)
  | inr r ↦ rw (s, r) (_, refl, sym r ∙ retryable-counts resp.status_code)
]

-- A request with a model and at least one message.
abbrev pub is_sendable : Option ChatRequest → Bool
is_sendable none = false
is_sendable (some req) = not (is_blank req.model) && ltb 0 (length req.messages)

abbrev pub has_ended : Option RequestContext → Bool
has_ended none = false
has_ended (some ctx) = elim ctx.before [ none ↦ false | some e ↦ true ]

context_error-fails :
    (ctx : Option RequestContext)
    → has_ended ctx ≡ true
    → (e : Error) × (context_error (err_before ctx) ≡ some e)
      × (is e Sentinel.upstream ≡ ends_upstream (err_before ctx))
unfolding context_error is
context_error-fails none h = ground (arith, h)
context_error-fails (some ctx) h = elim (Option-cases ctx.before) [
  | inl c ↦ ground (arith, h, c)
  | inr (e, c) ↦ elim (Bool-cases (is e Sentinel.deadline_exceeded)) [
    | inl d ↦ rw c (rw d (_, refl, refl))
    | inr d ↦ rw c (rw d (e, refl, refl))
  ]
]

no_message :
    (messages : List Message)
    → ltb 0 (length messages) ≡ false
    → let found =
        if is_nil messages
        then some (errorf "openai chat request messages are required" [])
        else none in
      (e : Error) × (found ≡ some e) × (is e Sentinel.upstream ≡ false)
unfolding is
no_message [] h = (_, refl, refl)
no_message (m ∷ messages) h = ground (arith, h)

invalid-request :
    (req : Option ChatRequest)
    → is_sendable req ≡ false
    → (e : Error) × (validate_chat_request req ≡ some e) × (is e Sentinel.upstream ≡ false)
unfolding validate_chat_request is
invalid-request none h = (_, refl, refl)
invalid-request (some req) h = elim (Bool-cases (is_blank req.model)) [
  | inl b ↦ rw b (_, refl, refl)
  | inr b ↦ rw b (no_message req.messages (ground (arith, h, b)))
]

valid-request :
    (req : Option ChatRequest) → is_sendable req ≡ true → validate_chat_request req ≡ none
unfolding validate_chat_request
valid-request none h = ground (arith, h)
valid-request (some req) h = ground (arith, h)

check_request-fails :
    (ctx : Option RequestContext) (req : Option ChatRequest)
    → (is_sendable req && not (has_ended ctx)) ≡ false
    → (e : Error) × (check_request ctx req ≡ some e)
      × (is e Sentinel.upstream ≡ (is_sendable req && ends_upstream (err_before ctx)))
unfolding check_request
check_request-fails ctx req h = elim (Bool-cases (is_sendable req)) [
  | inr s ↦ let (e, v, u) = invalid-request req s in rw v (rw s (e, refl, u))
  | inl s ↦
      let (e, c, u) = context_error-fails ctx (ground (arith, h, s)) in
      rw (valid-request req s) (rw s (rw c (e, refl, u)))
]

module _ {W Body : Type 0} where
  -- A request that is nil, without a model or without a message, or whose context has ended, is not sent:
  -- nothing acts on the world, and no response and no stream is returned but one and the same error. It
  -- counts against the provider only when the request could be sent and its context ended at a deadline
  -- (or with an upstream error of its own).
  pub chat_unsent :
      (p : Provider (Client W Body)) (ctx : Option RequestContext) (req : Option ChatRequest)
      (w : W)
      → (is_sendable req && not (has_ended ctx)) ≡ false
      → (e : Error) × (chat p ctx req w ≡ (w, none, some e))
        × (chat_stream p ctx req w ≡ (w, none, some e))
        × (is e Sentinel.upstream ≡ (is_sendable req && ends_upstream (err_before ctx)))
  unfolding chat chat_stream is
  chat_unsent p ctx none w h =
      let (e, c, u) = check_request-fails ctx none h in
      (e, rw (c, check_request) refl, rw (c, check_request) refl, u)
  chat_unsent p ctx (some req) w h =
      let (e, c, u) = check_request-fails ctx (some req) h in
      (e, rw (c, chat) refl, rw (c, chat_stream) refl, u)

  -- An answer outside 2xx is an error, which counts against the provider
  -- exactly for 429 and from 500 on; its body is closed.
  pub chat_status :
      (p : Provider (Client W Body)) (ctx : Option RequestContext) (req : ChatRequest) (w w' : W)
      (resp : Response Body)
      → check_request ctx (some req) ≡ none
      → do_chat_request p ctx req false w ≡ (w', ok resp)
      → is_success resp.status_code ≡ false
      → let (w1, got, cause) = chat p ctx (some req) w in
        (w1 ≡ p.http_client.close resp.body w')
        × (got ≡ none)
        × ((e : Error) × (cause ≡ some e)
            × (is e Sentinel.upstream ≡ counts_against resp.status_code))
  unfolding chat parse_chat_response classify_http_status_error is
  chat_status p ctx req w w' resp c d s =
      let (e, made, u) = classify_refused p.http_client.decode_error resp s in
      rw (c, chat) (rw (d, made, parse_chat_response) (refl, refl, (e, refl, u)))

  -- A request that gets no answer fails with an upstream error, unless its context has ended by then:
  -- that error counts against the provider only when it is a deadline (or upstream itself).
  pub chat_unanswered :
      (p : Provider (Client W Body)) (ctx : RequestContext) (req : ChatRequest) (w w' : W)
      (body : String) (e : Error)
      → check_request (some ctx) (some req) ≡ none
      → p.http_client.encode (map_chat_request req false) ≡ ok body
      → p.http_client.create_error true (http_request p body).url ≡ none
      → p.http_client.do_request (http_request p body) w ≡ (w', err e)
      → let (w1, got, cause) = chat p (some ctx) (some req) w in
        (w1 ≡ w')
        × (got ≡ none)
        × (is_any cause Sentinel.upstream
            ≡ (elim ctx.after [ some _ ↦ ends_upstream ctx.after | none ↦ true ]))
  unfolding chat do_chat_request context_error is
  chat_unanswered p ctx req w w' body e c n u d = ground (arith, c, n, u, d)

  -- Through the wrapper: an answer outside 2xx opens a CLOSED breaker exactly when its status is 429 or
  -- from 500 on and its failure completes the threshold; else the breaker stays CLOSED, with one failure
  -- more for such a status and with none for any other. The caller gets no response.
  pub wrapped_chat_status :
      (q : ProviderWrapper W (Channel Body)) (p : Provider (Client W Body))
      (ctx : Option RequestContext) (times : Times) (around : Context) (req : ChatRequest)
      (b : CircuitBreaker) (w w' : W) (resp : Response Body)
      → q.provider ≡ some (as_provider p ctx)
      → q.has_breaker ≡ true
      → around.err ≡ none
      → b.state ≡ State.closed
      → check_request ctx (some req) ≡ none
      → do_chat_request p ctx req false w ≡ (w', ok resp)
      → is_success resp.status_code ≡ false
      → let (b', _, got, _) = ProviderWrapper.chat (some q) times around (some req) b w in
        let counts = counts_against resp.status_code in
        let failures = b.consecutive_failures + 1 in
        let trips = counts && leb_ℤ b.config.failure_threshold (pos failures) in
        (b'.state ≡ (if trips then State.opened else State.closed))
        × (b'.consecutive_failures ≡ (if counts then (if trips then 0 else failures) else 0))
        × (got ≡ none)
  unfolding after_call
  wrapped_chat_status q p ctx times around req b w w' resp hq hb live closed c d s =
      let (_, none_got, (e, made, u)) = chat_status p ctx req w w' resp c d s in
      ground (
        arith,
        made,
        u,
        closed,
        chat_closed q (as_provider p ctx) hq hb times around live (some req) b w closed,
      )

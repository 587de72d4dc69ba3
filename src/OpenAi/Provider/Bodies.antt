-- ===== src/OpenAi/Provider/Bodies.antt =====
-- No response body is left open: what Chat, ChatStream and the goroutine of a channel close.
use ash_jazz_ai_agent.Prelude.{
  ℕ, ◌+◌, ◌-◌, Bool, true, false, Option, none, some, ◌≡◌, refl, ap, arith, Option-cases, inl, inr,
}
use ash_jazz_ai_agent.Errors.{Error, Result, ok, err, Result-cases}
use ash_jazz_ai_agent.Llm.{ChatRequest}
use ash_jazz_ai_agent.OpenAi.Failures.{Response}
use ash_jazz_ai_agent.OpenAi.Settings.{Provider}
use ash_jazz_ai_agent.OpenAi.Mapping.{map_chat_request}
use ash_jazz_ai_agent.OpenAi.Provider.{
  Client, Channel, HttpRequest, RequestContext, is_given_context, http_request, do_chat_request,
  chat, chat_stream, drain,
}

abbrev pub is_open {ℓ} : {A : Type ℓ} → Option A → ℕ
is_open none = 0
is_open (some a) = 1

-- A client whose bodies are counted: a request that is answered opens one, and Close closes it.
pub record IsCounted {W Body : Type 0} (client : Client W Body) (open_bodies : W → ℕ) : Type 0 where
  pub answers :
      (r : HttpRequest) (w w' : W) (resp : Response Body)
      → client.do_request r w ≡ (w', ok resp)
      → open_bodies w' ≡ open_bodies w + 1
  pub fails :
      (r : HttpRequest) (w w' : W) (e : Error)
      → client.do_request r w ≡ (w', err e)
      → open_bodies w' ≡ open_bodies w
  pub closes : (body : Option Body) (w : W) → open_bodies (client.close body w) ≡ open_bodies w - 1

-- One body is open after an answer, and none after a failure.
abbrev holds {ℓ} : {A : Type ℓ} → Result A → ℕ
holds (ok a) = 1
holds (err e) = 0

module _ {W Body : Type 0} (p : Provider (Client W Body)) (open_bodies : W → ℕ)
    (counted : IsCounted p.http_client open_bodies) where
  do_chat_request-holds :
      (ctx : Option RequestContext) (req : ChatRequest) (stream : Bool) (w : W)
      → let (w', answer) = do_chat_request p ctx req stream w in
        open_bodies w' ≡ open_bodies w + holds answer
  unfolding do_chat_request
  do_chat_request-holds ctx req stream w =
      elim (Result-cases (p.http_client.encode (map_chat_request req stream))) [
        | inl (e, m) ↦ ground (arith, m)
        | inr (body, m) ↦
            let r = http_request p body in
            let (w', answer) = p.http_client.do_request r w in
            elim (Option-cases (p.http_client.create_error (is_given_context ctx) r.url)) [
              | inr (e, n) ↦ ground (arith, m, n)
              | inl n ↦ elim (Result-cases answer) [
                | inl (e, d) ↦ ground (arith, m, n, d, counted.fails r w w' e (ap (λ a. (w', a)) d))
                | inr (resp, d) ↦
                    ground (arith, m, n, d, counted.answers r w w' resp (ap (λ a. (w', a)) d))
              ]
            ]
      ]

  -- Every body that Chat gets is closed when it returns.
  pub open_bodies-chat :
      (ctx : Option RequestContext) (req : Option ChatRequest) (w : W)
      → open_bodies (chat p ctx req w).0 ≡ open_bodies w
  unfolding chat
  open_bodies-chat ctx none w = refl
  open_bodies-chat ctx (some req) w =
      let (w', answer) = do_chat_request p ctx req false w in
      elim (Result-cases answer) [
        | inl (e, d) ↦ ground (arith, d, do_chat_request-holds ctx req false w)
        | inr (resp, d) ↦
            ground (arith, d, do_chat_request-holds ctx req false w, counted.closes resp.body w')
      ]

  -- ChatStream leaves a body open only with the channel that it returns, and the goroutine of the channel
  -- closes it, whatever the stream contains and whenever its context ends.
  pub open_bodies-chat_stream :
      (ctx : Option RequestContext) (req : Option ChatRequest) (w : W) (accepts : ℕ → Bool)
      (ended : Option Error) (channel : Channel Body) (v : W)
      → let (w', got, _) = chat_stream p ctx req w in
        (open_bodies w' ≡ open_bodies w + is_open got)
        × (open_bodies (drain p.http_client accepts ended channel v).0 ≡ open_bodies v - 1)
  unfolding chat_stream drain
  open_bodies-chat_stream ctx none w accepts ended channel v =
      ground (arith, counted.closes channel v)
  open_bodies-chat_stream ctx (some req) w accepts ended channel v =
      let (w', answer) = do_chat_request p ctx req true w in
      elim (Result-cases answer) [
        | inl (e, d) ↦
            ground (arith, d, counted.closes channel v, do_chat_request-holds ctx req true w)
        | inr (resp, d) ↦ ground (
          arith,
          d,
          do_chat_request-holds ctx req true w,
          counted.closes resp.body w',
          counted.closes channel v,
        )
      ]

-- ===== src/OpenAi/Provider/Secrecy.antt =====
-- The API key leaves the adapter in the Authorization header only.
use ash_jazz_ai_agent.Prelude.{
  String, Bool, true, false, Option, none, some, ◌≡◌, refl, inl, inr, arith,
}
use ash_jazz_ai_agent.Prelude.Text.{append}
use ash_jazz_ai_agent.Errors.{Result-cases}
use ash_jazz_ai_agent.Llm.{ChatRequest}
use ash_jazz_ai_agent.OpenAi.Mapping.{map_chat_request}
use ash_jazz_ai_agent.OpenAi.Settings.{Provider}
use ash_jazz_ai_agent.OpenAi.Provider.{
  Client, HttpRequest, RequestContext, http_request, do_chat_request, chat, chat_stream,
}

module _ {W Body : Type 0} (p : Provider (Client W Body)) where
  abbrev pub with_key : String → Provider (Client W Body)
  with_key key = record p { api_key = key }

  -- A client that answers alike whatever the Authorization header says.
  abbrev pub IsBlind : Type 0
  IsBlind =
      (r : HttpRequest) (a a' : String) (w : W)
      → p.http_client.do_request (record r { authorization = a }) w
        ≡ p.http_client.do_request (record r { authorization = a' }) w

  do_chat_request-with_key :
      (key : String) (ctx : Option RequestContext) (req : ChatRequest) (stream : Bool) (w : W)
      → IsBlind
      → do_chat_request (with_key key) ctx req stream w ≡ do_chat_request p ctx req stream w
  unfolding do_chat_request
  do_chat_request-with_key key ctx req stream w blind =
      elim (Result-cases (p.http_client.encode (map_chat_request req stream))) [
        | inl (e, m) ↦ ground (arith, m)
        | inr (body, m) ↦ ground (
          arith,
          m,
          blind (http_request p body) (append "Bearer " key) (append "Bearer " p.api_key) w,
        )
      ]

  -- Only the Authorization header depends on the API key: with a client that does not look at it, any
  -- other key gives the same requests, responses, streams and errors.
  pub chat_with_key :
      (key : String) (ctx : Option RequestContext) (req : Option ChatRequest) (w : W)
      → IsBlind
      → (chat (with_key key) ctx req w ≡ chat p ctx req w)
        × (chat_stream (with_key key) ctx req w ≡ chat_stream p ctx req w)
  unfolding chat chat_stream
  chat_with_key key ctx none w blind = (refl, refl)
  chat_with_key key ctx (some req) w blind = ground (
    arith,
    do_chat_request-with_key key ctx req false w blind,
    do_chat_request-with_key key ctx req true w blind,
  )

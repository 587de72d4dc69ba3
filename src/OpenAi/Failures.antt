-- ===== src/OpenAi/Failures.antt =====
-- pkg/ai/llm/openai/errors.go: HTTP statuses as classified errors. `decode` reads the JSON of a body.
use ash_jazz_ai_agent.Prelude.{
  String, Bool, ◌&&◌, ◌||◌, List, [], ◌∷◌, ◌++◌, Option, none, some, if◌then◌else◌,
}
use ash_jazz_ai_agent.Prelude.Decimal.{decimal, int_text}
use ash_jazz_ai_agent.Prelude.Int.{ℤ, pos, leb_ℤ, ltb_ℤ}
use ash_jazz_ai_agent.Prelude.Substring.{join}
use ash_jazz_ai_agent.Prelude.Text.{is_empty, append}
use ash_jazz_ai_agent.Errors.{Error, Sentinel, sentinel, errorf, wrapf, Result, ok, err}
use ash_jazz_ai_agent.OpenAi.Wire.{ErrorBody}

-- What http.Client.Do returns: the status, and the handle of the body.
pub record Response (Body : Type 0) : Type 0 where
  pub status_code : ℤ
  pub body : Option Body

abbrev pub no_error_body : ErrorBody
no_error_body = record { message = ""; error_type = ""; error_code = "" }

-- The parts of a message that a body gives: each under its label, when it is there.
abbrev labelled : String → String → List String
labelled label text = if is_empty text then [] else append label text ∷ []

abbrev pub body_parts : ErrorBody → List String
body_parts body =
    labelled "type " body.error_type
    ++ labelled "code " body.error_code
    ++ labelled "message " body.message

unfoldable pub build_http_error_message : ℤ → ErrorBody → String
unfolding decimal join
build_http_error_message status_code body =
    let head = append "openai chat request failed with status " (int_text status_code) in
    join ": " (head ∷ body_parts body)

unfoldable pub build_stream_error_message : ErrorBody → String
unfolding join
build_stream_error_message body = join ": " ("openai stream error" ∷ body_parts body)

-- `resp.StatusCode >= 200 && resp.StatusCode < 300`
abbrev pub is_success : ℤ → Bool
is_success status = leb_ℤ (pos 200) status && ltb_ℤ status (pos 300)

abbrev pub is_retryable_http_status : ℤ → Bool
is_retryable_http_status status =
    (leb_ℤ status (pos 429) && leb_ℤ (pos 429) status) || leb_ℤ (pos 500) status

module _ {Body : Type 0} (decode : Body → Result ErrorBody) where
  abbrev or_no_body : Result ErrorBody → ErrorBody
  or_no_body (err e) = no_error_body
  or_no_body (ok body) = body

  abbrev decode_error_body : Option Body → ErrorBody
  decode_error_body none = no_error_body
  decode_error_body (some body) = or_no_body (decode body)

  unfoldable pub classify_http_status_error : Response Body → Option Error
  unfolding build_http_error_message
  classify_http_status_error resp =
      let message = build_http_error_message resp.status_code (decode_error_body resp.body) in
      if is_success resp.status_code
      then none
      else if is_retryable_http_status resp.status_code
      then some (wrapf "%s: %w" (message ∷ []) (sentinel Sentinel.upstream))
      else some (errorf "%s" (message ∷ []))

-- ===== src/Obs/Redaction.antt =====
-- pkg/ai/obs/redaction.go and baggage_policy.go. A map of fields is a dictionary, in the order in
-- which a range over it goes; `table` is the part of unicode.ToLower that is not ASCII.
pub mod Scan
pub mod Baggage
pub mod Tests
use Prim.Native.Char.{Char, code}
use ash_jazz_ai_agent.Prelude.{
  ℕ, String, Bool, true, false, not, ◌&&◌, ◌||◌, List, [], ◌∷◌, Option, none, some, ◌==◌, leb,
  if◌then◌else◌,
}
use ash_jazz_ai_agent.Prelude.Sort.{sort}
use ash_jazz_ai_agent.Prelude.Substring.{
  has_prefix, contains, count_rune, before_rune, after_rune, filter_runes, count_runes, to_lower,
}
use ash_jazz_ai_agent.Prelude.Text.{trim_space, is_empty, text_beq}
use ash_jazz_ai_agent.Prelude.TextOrder.{less_text}
use ash_jazz_ai_agent.Errors.{Error, errorf, Result, ok, err}
use ash_jazz_ai_agent.Obs.Identity.{CorrelationIdentity}

-- A finding has the field's key and a reason, and no value.
pub data Reason : Type 0 where
  forbidden_key sensitive_value : Reason

pub record Finding : Type 0 where
  pub key : String
  pub reason : Reason

unfoldable pub is_listed : String → List String → Bool
is_listed s [] = false
is_listed s (t ∷ ts) = let later = is_listed s ts in text_beq t s || later

abbrev pub forbidden_payload_keys : List String
forbidden_payload_keys =
    "api_key" ∷ "authorization" ∷ "external_response" ∷ "jwt" ∷ "password" ∷ "prompt"
    ∷ "prompt_content" ∷ "raw_query" ∷ "tool_args" ∷ "tool_arguments" ∷ []

abbrev pub forbidden_baggage_keys : List String
forbidden_baggage_keys =
    "api_key" ∷ "authorization" ∷ "external_response" ∷ "password" ∷ "prompt" ∷ "prompt_content"
    ∷ "raw_query" ∷ "tool_args" ∷ "tool_arguments" ∷ []

abbrev pub allowed_baggage_keys : List String
allowed_baggage_keys =
    "request_id" ∷ "service_trace_id" ∷ "span_id" ∷ "ai_trace_id" ∷ "session_id" ∷ "eval_run_id"
    ∷ []

-- The fragments; strings.ToLower leaves them as they are.
abbrev sensitive_fragments : List String
sensitive_fragments =
    "bearer " ∷ "external_response" ∷ "password" ∷ "prompt:" ∷ "raw query" ∷ "sk-" ∷ "system prompt"
    ∷ "tool_args" ∷ "用户问题" ∷ "用户原文" ∷ "完整 prompt" ∷ []

unfoldable pub contains_any : String → List String → Bool
contains_any s [] = false
contains_any s (f ∷ fs) = let later = contains_any s fs in contains s f || later

abbrev is_digit : Char → Bool
is_digit c = leb 0x30 (code c) && leb (code c) 0x39

unfoldable pub digits_only : String → String
unfolding filter_runes
digits_only value = filter_runes is_digit value

-- Three parts between dots, the first of which begins with eyJ.
unfoldable pub looks_like_jwt : String → Bool
unfolding count_rune before_rune has_prefix
looks_like_jwt value = count_rune 0x2e value == 2 && has_prefix (before_rune 0x2e value) "eyJ"

-- An @ that is neither the first nor the last byte, with a dot behind it.
unfoldable pub looks_like_email : String → Bool
unfolding count_rune before_rune after_rune
looks_like_email value =
    let trimmed = trim_space value in
    let domain = after_rune 0x40 trimmed in
    not (count_rune 0x40 trimmed == 0)
    && (not (is_empty (before_rune 0x40 trimmed))
        && (not (is_empty domain) && not (count_rune 0x2e domain == 0)))

unfoldable pub looks_like_phone_number : String → Bool
unfolding digits_only has_prefix
looks_like_phone_number value =
    let digits = digits_only value in count_runes digits == 11 && has_prefix digits "1"

unfoldable pub looks_like_chinese_national_id : String → Bool
unfolding digits_only
looks_like_chinese_national_id value = count_runes (digits_only value) == 18

module _ (table : Char → Char) where
  abbrev pub normalize : String → String
  normalize s = to_lower table (trim_space s)

  unfoldable pub contains_sensitive_payload_value : String → Bool
  unfolding contains_any looks_like_jwt looks_like_email looks_like_phone_number
      looks_like_chinese_national_id
  contains_sensitive_payload_value value =
      if is_empty (normalize value)
      then false
      else contains_any (normalize value) sensitive_fragments
        || (looks_like_jwt value
            || (looks_like_email value
                || (looks_like_phone_number value || looks_like_chinese_national_id value)))

  unfoldable pub is_forbidden_payload_key : String → Bool
  is_forbidden_payload_key key =
      not (is_empty (normalize key)) && is_listed (normalize key) forbidden_payload_keys

  -- The switch on one field.
  abbrev pub finding_of : String → String → Option Finding
  finding_of key value =
      if is_forbidden_payload_key key
      then some (record { key = key; reason = Reason.forbidden_key })
      else if contains_sensitive_payload_value value
      then some (record { key = key; reason = Reason.sensitive_value })
      else none

  abbrev pub cons_found : Option Finding → List Finding → List Finding
  cons_found none findings = findings
  cons_found (some f) findings = f ∷ findings

  unfoldable pub collect_findings : List (String × String) → List Finding
  collect_findings [] = []
  collect_findings ((key, value) ∷ fields) =
      let rest = collect_findings fields in cons_found (finding_of key value) rest

  abbrev pub by_key : Finding → Finding → Bool
  by_key a b = less_text a.key b.key

  unfoldable pub scan_forbidden_payload_fields : List (String × String) → List Finding
  unfolding collect_findings sort
  scan_forbidden_payload_fields fields = sort by_key (collect_findings fields)

  unfoldable pub validate_baggage_field : String → String → Option Error
  validate_baggage_field key value =
      if is_empty (normalize key)
      then some (errorf "baggage field key is empty" [])
      else if is_listed (normalize key) forbidden_baggage_keys
      then some (errorf "baggage field %q is forbidden" (key ∷ []))
      else if is_listed (normalize key) allowed_baggage_keys
      then (if contains_sensitive_payload_value value
          then some (errorf "baggage field %q contains sensitive value" (key ∷ []))
          else none)
      else some (errorf "baggage field %q is not in allowlist" (key ∷ []))

  abbrev pub identity_fields : CorrelationIdentity → List (String × String)
  identity_fields i =
      ("request_id", i.request_id)
      ∷ ("service_trace_id", i.service_trace_id)
      ∷ ("span_id", i.span_id)
      ∷ ("ai_trace_id", i.ai_trace_id)
      ∷ ("session_id", i.session_id)
      ∷ ("eval_run_id", i.eval_run_id)
      ∷ []

  -- The loop, which stops at the first field that is refused.
  unfoldable pub validate_fields : List (String × String) → Option Error
  unfolding validate_baggage_field
  validate_fields [] = none
  validate_fields ((key, value) ∷ fields) =
      let later = validate_fields fields in
      elim (validate_baggage_field key value) [ some e ↦ some e | none ↦ later ]

  abbrev validated : List (String × String) → Option Error → Result (List (String × String))
  validated fields (some e) = err e
  validated fields none = ok fields

  -- `BaggageFieldsFromCorrelationIdentity`; `order` is the order in which the range goes over the map.
  unfoldable pub baggage_fields_from_correlation_identity :
      (List (String × String) → List (String × String))
      → CorrelationIdentity
      → Result (List (String × String))
  unfolding validate_fields
  baggage_fields_from_correlation_identity order i =
      validated (identity_fields i) (validate_fields (order (identity_fields i)))

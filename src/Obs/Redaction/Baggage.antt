-- ===== src/Obs/Redaction/Baggage.antt =====
-- When an identity may travel as baggage: whatever the order in which its fields are checked.
use mathlib.Core.List.{Permᴰ}
use Prim.Native.Char.{Char}
use ash_jazz_ai_agent.Prelude.{
  String, Bool, true, false, not, ◌&&◌, List, [], ◌∷◌, Option, none, some, ◌≡◌, refl, ap, ◌∙◌,
  arith,
}
use ash_jazz_ai_agent.Prelude.Substring.{to_lower}
use ash_jazz_ai_agent.Prelude.Text.{trim_space, is_empty}
use ash_jazz_ai_agent.Errors.{Result, ok, err}
use ash_jazz_ai_agent.Obs.Identity.{CorrelationIdentity}
use ash_jazz_ai_agent.Obs.Redaction.{
  contains_sensitive_payload_value, is_listed, normalize, allowed_baggage_keys,
  forbidden_baggage_keys, validate_baggage_field, validate_fields, identity_fields,
  baggage_fields_from_correlation_identity,
}

abbrev pub is_ok {ℓ} : {A : Type ℓ} → Result A → Bool
is_ok (ok a) = true
is_ok (err e) = false

abbrev is_none {ℓ} : {A : Type ℓ} → Option A → Bool
is_none none = true
is_none (some a) = false

module _ (table : Char → Char) where
  abbrev is_valid : String × String → Bool
  is_valid entry = is_none (validate_baggage_field table entry.0 entry.1)

  unfoldable all_valid : List (String × String) → Bool
  all_valid [] = true
  all_valid (entry ∷ fields) = let later = all_valid fields in is_valid entry && later

  validate_fields-all_valid :
      (fields : List (String × String)) → is_none (validate_fields table fields) ≡ all_valid fields
  unfolding validate_fields all_valid
  validate_fields-all_valid [] = refl
  validate_fields-all_valid ((key, value) ∷ fields) =
      ground (arith, validate_fields-all_valid fields)

  all_valid-perm : {c d : List (String × String)} → Permᴰ c d → all_valid c ≡ all_valid d
  unfolding all_valid
  all_valid-perm Permᴰ.nil = refl
  all_valid-perm (Permᴰ.cons {b = b} {l₁ = c} e p) =
      ap (λ z. is_valid z && all_valid c) e ∙ ap (λ z. is_valid b && z) (all_valid-perm p)
  all_valid-perm (Permᴰ.swap {a} {b} {a'} {b'} {l} e f) =
      let turned : (is_valid a && (is_valid b && all_valid l))
          ≡ (is_valid b && (is_valid a && all_valid l)) =
        ground arith in
      turned
      ∙ ap (λ z. is_valid z && (is_valid a && all_valid l)) f
      ∙ ap (λ z. is_valid a' && (is_valid z && all_valid l)) e
  all_valid-perm (Permᴰ.trans p q) = all_valid-perm p ∙ all_valid-perm q

  abbrev pub is_safe : String → Bool
  is_safe value = not (contains_sensitive_payload_value table value)

  -- An allowed key leaves the decision to its value.
  is_valid-allowed :
      (key value : String)
      → is_empty (normalize table key) ≡ false
      → is_listed (normalize table key) forbidden_baggage_keys ≡ false
      → is_listed (normalize table key) allowed_baggage_keys ≡ true
      → is_valid (key, value) ≡ is_safe value
  unfolding validate_baggage_field
  is_valid-allowed key value e f a = ground (arith, e, f, a)

  identity_fields-all_valid :
      (i : CorrelationIdentity)
      → all_valid (identity_fields table i) ≡ (
          is_safe i.request_id
          && (is_safe i.service_trace_id
              && (is_safe i.span_id
                  && (is_safe i.ai_trace_id && (is_safe i.session_id && is_safe i.eval_run_id)))))
  unfolding all_valid to_lower trim_space is_listed
  identity_fields-all_valid i = ground (
    arith,
    is_valid-allowed "request_id" i.request_id refl refl refl,
    is_valid-allowed "service_trace_id" i.service_trace_id refl refl refl,
    is_valid-allowed "span_id" i.span_id refl refl refl,
    is_valid-allowed "ai_trace_id" i.ai_trace_id refl refl refl,
    is_valid-allowed "session_id" i.session_id refl refl refl,
    is_valid-allowed "eval_run_id" i.eval_run_id refl refl refl,
  )

  is_ok-baggage_fields :
      (order : List (String × String) → List (String × String)) (i : CorrelationIdentity)
      → is_ok (baggage_fields_from_correlation_identity table order i)
        ≡ is_none (validate_fields table (order (identity_fields table i)))
  unfolding baggage_fields_from_correlation_identity
  is_ok-baggage_fields order i = ground arith

  -- An identity becomes baggage exactly when none of its six values is sensitive, in whatever order the
  -- fields are checked.
  pub baggage_fields-is_ok :
      (order : List (String × String) → List (String × String)) (i : CorrelationIdentity)
      → Permᴰ (order (identity_fields table i)) (identity_fields table i)
      → is_ok (baggage_fields_from_correlation_identity table order i) ≡ (
          is_safe i.request_id
          && (is_safe i.service_trace_id
              && (is_safe i.span_id
                  && (is_safe i.ai_trace_id && (is_safe i.session_id && is_safe i.eval_run_id)))))
  baggage_fields-is_ok order i p =
      is_ok-baggage_fields order i
      ∙ validate_fields-all_valid (order (identity_fields table i))
      ∙ all_valid-perm p
      ∙ identity_fields-all_valid i

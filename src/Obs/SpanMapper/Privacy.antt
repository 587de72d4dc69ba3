-- ===== src/Obs/SpanMapper/Privacy.antt =====
-- Which texts leave in the attributes of a span.
use Prim.Native.Char.{Char}
use ash_jazz_ai_agent.Prelude.{
  ℕ, String, Bool, true, false, not, ◌&&◌, ◌||◌, List, [], ◌∷◌, none, some, ◌≡◌, refl, ◌∙◌, arith,
  map,
}
use ash_jazz_ai_agent.Prelude.Dict.{◌≟◌, lookup, insert, lookup-insert, text_key}
use ash_jazz_ai_agent.Prelude.Float.{Float64, equal}
use ash_jazz_ai_agent.Prelude.Int.{is_zero}
use ash_jazz_ai_agent.Prelude.Decimal.{int_text}
use ash_jazz_ai_agent.Prelude.Substring.{join}
use ash_jazz_ai_agent.Obs.Trace.{Trace, zero_float}
use ash_jazz_ai_agent.Obs.Redaction.{contains_sensitive_payload_value, is_listed}
use ash_jazz_ai_agent.Obs.Redaction.Scan.{is_clean, scan-is_clean}
use ash_jazz_ai_agent.Obs.SpanMapper.{
  Attribute, Attributes, is_nil, put_unless, put_string_attribute, put, put_all, puts_of,
  attributes_for_trace,
}

lookup-put_unless :
    (wanted : String) (b : Bool) (key printed : String) (m : Attributes)
    → (key ≟ wanted) ≡ false
    → lookup wanted (put_unless b key printed m) ≡ lookup wanted m
unfolding put_unless
lookup-put_unless wanted b key printed m e = ground (arith, e, lookup-insert key wanted printed m)

-- The keys of numbers, truth values, the feature and the outcome.
abbrev pub unscanned_keys : List String
unscanned_keys =
    "ai.feature" ∷ "ai.outcome" ∷ "ai.query.length" ∷ "ai.usage.input_tokens"
    ∷ "ai.usage.output_tokens" ∷ "ai.usage.reasoning_tokens" ∷ "ai.usage.cache_read_tokens"
    ∷ "ai.usage.cache_write_tokens" ∷ "ai.temperature" ∷ "ai.latency.ttft_ms"
    ∷ "ai.latency.total_ms" ∷ "ai.retrieval.chunks" ∷ "ai.retrieval.top_scores"
    ∷ "ai.latency.retrieval_ms" ∷ "ai.agent.step_index" ∷ "ai.agent.loop_detected"
    ∷ "ai.agent.budget_exceeded" ∷ "ai.provider.degraded" ∷ "ai.provider.rate_limited"
    ∷ "ai.cost_usd" ∷ "ai.feedback.user_rating" ∷ "ai.feedback.auto_eval_score" ∷ []

module _ (table : Char → Char) where
  -- An attribute that has one of those keys, or whose value is not sensitive.
  abbrev is_safe_attribute : String → String → Bool
  is_safe_attribute key value =
      is_listed key unscanned_keys || not (contains_sensitive_payload_value table value)

  unfoldable pub all_safe : Attributes → Bool
  all_safe [] = true
  all_safe ((key, value) ∷ attributes) =
      let later = all_safe attributes in is_safe_attribute key value && later

  all_safe-insert :
      (key value : String) (m : Attributes)
      → is_safe_attribute key value ≡ true
      → all_safe m ≡ true
      → all_safe (insert key value m) ≡ true
  unfolding all_safe insert
  all_safe-insert key value [] s h = ground (arith, s)
  all_safe-insert key value ((held, v) ∷ m) s h =
      ground (arith, s, h, all_safe-insert key value m s)

  all_safe-put_unless :
      (b : Bool) (key printed : String) (m : Attributes)
      → is_listed key unscanned_keys ≡ true
      → all_safe m ≡ true
      → all_safe (put_unless b key printed m) ≡ true
  unfolding put_unless
  all_safe-put_unless b key printed m e h = ground (arith, e, h, all_safe-insert key printed m)

  -- A value that is not put by putStringAttribute needs a key of the list.
  abbrev is_exempt : String → Attribute → Bool
  is_exempt key (Attribute.text value) = true
  is_exempt key _ = is_listed key unscanned_keys

  abbrev all_exempt : List (String × Attribute) → Bool
  all_exempt [] = true
  all_exempt ((key, value) ∷ puts) = is_exempt key value && all_exempt puts

  abbrev has_key : String → List (String × Attribute) → Bool
  has_key wanted [] = false
  has_key wanted ((key, value) ∷ puts) = key ≟ wanted || has_key wanted puts

  module _ (format_time : ℕ → String) (format_float : Float64 → String) where
    all_safe-put :
        (key : String) (value : Attribute) (m : Attributes)
        → is_exempt key value ≡ true
        → all_safe m ≡ true
        → all_safe (put table format_time format_float key value m) ≡ true
    unfolding put put_string_attribute is_clean
    all_safe-put key (Attribute.text value) m e h =
        ground (arith, h, all_safe-insert key value m, scan-is_clean table ((key, value) ∷ []))
    all_safe-put key (Attribute.int value) m e h =
        all_safe-put_unless (is_zero value) key (int_text value) m e h
    all_safe-put key (Attribute.int_allow_zero value include) m e h =
        all_safe-put_unless (not include && is_zero value) key (int_text value) m e h
    all_safe-put key (Attribute.float value) m e h =
        all_safe-put_unless (equal value zero_float) key (format_float value) m e h
    all_safe-put key (Attribute.boolean value) m e h =
        all_safe-put_unless (not value) key "true" m e h
    all_safe-put key (Attribute.floats values) m e h =
        all_safe-put_unless (is_nil values) key (join "," (map format_float values)) m e h
    all_safe-put key (Attribute.int_pointer none) m e h = h
    all_safe-put key (Attribute.int_pointer (some value)) m e h =
        all_safe-put_unless false key (int_text value) m e h
    all_safe-put key (Attribute.float_pointer none) m e h = h
    all_safe-put key (Attribute.float_pointer (some value)) m e h =
        all_safe-put_unless false key (format_float value) m e h

    all_safe-put_all :
        (puts : List (String × Attribute)) (m : Attributes)
        → all_exempt puts ≡ true
        → all_safe m ≡ true
        → all_safe (put_all table format_time format_float puts m) ≡ true
    unfolding put_all
    all_safe-put_all [] m e h = h
    all_safe-put_all ((key, value) ∷ puts) m e h =
        let put_safe = all_safe-put key value m in
        let rest = all_safe-put_all puts (put table format_time format_float key value m) in
        ground (arith, e, h, put_safe, rest)

    lookup-put :
        (wanted key : String) (value : Attribute) (m : Attributes)
        → (key ≟ wanted) ≡ false
        → lookup wanted (put table format_time format_float key value m) ≡ lookup wanted m
    unfolding put put_string_attribute
    lookup-put wanted key (Attribute.text value) m e =
        ground (arith, e, lookup-insert key wanted value m)
    lookup-put wanted key (Attribute.int value) m e =
        lookup-put_unless wanted (is_zero value) key (int_text value) m e
    lookup-put wanted key (Attribute.int_allow_zero value include) m e =
        lookup-put_unless wanted (not include && is_zero value) key (int_text value) m e
    lookup-put wanted key (Attribute.float value) m e =
        lookup-put_unless wanted (equal value zero_float) key (format_float value) m e
    lookup-put wanted key (Attribute.boolean value) m e =
        lookup-put_unless wanted (not value) key "true" m e
    lookup-put wanted key (Attribute.floats values) m e =
        lookup-put_unless wanted (is_nil values) key (join "," (map format_float values)) m e
    lookup-put wanted key (Attribute.int_pointer none) m e = refl
    lookup-put wanted key (Attribute.int_pointer (some value)) m e =
        lookup-put_unless wanted false key (int_text value) m e
    lookup-put wanted key (Attribute.float_pointer none) m e = refl
    lookup-put wanted key (Attribute.float_pointer (some value)) m e =
        lookup-put_unless wanted false key (format_float value) m e

    lookup-put_all :
        (wanted : String) (puts : List (String × Attribute)) (m : Attributes)
        → has_key wanted puts ≡ false
        → lookup wanted (put_all table format_time format_float puts m) ≡ lookup wanted m
    unfolding put_all
    lookup-put_all wanted [] m h = refl
    lookup-put_all wanted ((key, value) ∷ puts) m h =
        let m' = put table format_time format_float key value m in
        lookup-put_all wanted puts m' (ground (arith, h))
        ∙ lookup-put wanted key value m (ground (arith, h))

    -- No text that is put under its own key is sensitive: an attribute of a span is a number, a truth
    -- value, the feature or the outcome, or its value is not sensitive.
    pub attributes_for_trace-all_safe :
        (trace : Trace)
        → all_safe (attributes_for_trace table format_time format_float trace) ≡ true
    unfolding attributes_for_trace is_listed all_safe
    attributes_for_trace-all_safe trace =
        let base : Attributes =
          ("ai.feature", trace.feature) ∷ ("ai.outcome", trace.outcome_status) ∷ [] in
        all_safe-put_all (puts_of table format_time format_float trace) base refl refl

    -- The feature and the outcome leave unscanned, sensitive or not.
    pub attributes_for_trace-unscanned :
        (trace : Trace)
        → let attributes = attributes_for_trace table format_time format_float trace in
          (lookup "ai.feature" attributes ≡ some trace.feature)
          × (lookup "ai.outcome" attributes ≡ some trace.outcome_status)
    unfolding attributes_for_trace lookup
    attributes_for_trace-unscanned trace =
        let base : Attributes =
          ("ai.feature", trace.feature) ∷ ("ai.outcome", trace.outcome_status) ∷ [] in
        let puts = puts_of table format_time format_float trace in
        (lookup-put_all "ai.feature" puts base refl, lookup-put_all "ai.outcome" puts base refl)

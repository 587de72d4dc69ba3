-- ===== src/OpenAi/Mapping/Calls.antt =====
-- What a response holds of the message that it decodes: its tool calls are all there, or none is.
use ash_jazz_ai_agent.Prelude.{String, false, List, [], ◌∷◌, ◌≡◌, refl, subst, Bool-cases, inl, inr}
use ash_jazz_ai_agent.Prelude.Int.{pos}
use ash_jazz_ai_agent.Prelude.Text.{text_beq, text_beq_iff}
use ash_jazz_ai_agent.Errors.{Result, ok, err}
use ash_jazz_ai_agent.Json.{Map}
use ash_jazz_ai_agent.Llm.{ChatResponse, FinishReason, ToolCall, Usage}
use ash_jazz_ai_agent.OpenAi.ToolCalls.{decode_tool_arguments}
use ash_jazz_ai_agent.OpenAi.Wire.{
  WireToolCall, WireUsage, WireChoice, WireResponse, map_finish_reason, usage_of,
}
use ash_jazz_ai_agent.OpenAi.Mapping.{
  map_tool_calls, mapped_call, cons_mapped, first_choice, chosen, decoded_response,
}

-- A finish reason is the constant of its text, and any other text is kept.
abbrev pub IsFinish : String → FinishReason → Type 0
IsFinish reason FinishReason.stop = reason ≡ "stop"
IsFinish reason FinishReason.length = reason ≡ "length"
IsFinish reason FinishReason.tool_calls = reason ≡ "tool_calls"
IsFinish reason FinishReason.content_filter = reason ≡ "content_filter"
IsFinish reason (FinishReason.other kept) =
    (kept ≡ reason)
    × (text_beq reason "stop" ≡ false)
    × (text_beq reason "length" ≡ false)
    × (text_beq reason "tool_calls" ≡ false)
    × (text_beq reason "content_filter" ≡ false)

map_finish_reason-IsFinish : (reason : String) → IsFinish reason (map_finish_reason reason)
unfolding map_finish_reason
map_finish_reason-IsFinish reason = elim (Bool-cases (text_beq reason "stop")) [
  | inl a ↦ rw a ((text_beq_iff reason "stop").0 a)
  | inr a ↦ elim (Bool-cases (text_beq reason "length")) [
    | inl b ↦ rw a (rw b ((text_beq_iff reason "length").0 b))
    | inr b ↦ elim (Bool-cases (text_beq reason "tool_calls")) [
      | inl c ↦ rw a (rw b (rw c ((text_beq_iff reason "tool_calls").0 c)))
      | inr c ↦ elim (Bool-cases (text_beq reason "content_filter")) [
        | inl d ↦ rw a (rw b (rw c (rw d ((text_beq_iff reason "content_filter").0 d))))
        | inr d ↦ rw a (rw b (rw c (rw d (refl, a, b, c, d))))
      ]
    ]
  ]
]

-- The counts of a usage are those that the protocol sends, and zero where it sends none.
abbrev pub IsUsage : WireUsage → Usage → Type 0
IsUsage sent u =
    (u.input_tokens ≡ sent.prompt_tokens)
    × (u.output_tokens ≡ sent.completion_tokens)
    × (u.total_tokens ≡ sent.total_tokens)
    × (u.reasoning_tokens ≡ pos 0)
    × (u.cache_read_tokens ≡ pos 0)
    × (u.cache_write_tokens ≡ pos 0)

usage_of-IsUsage : (sent : WireUsage) → IsUsage sent (usage_of sent)
usage_of-IsUsage sent = (refl, refl, refl, refl, refl, refl)

module _ (unmarshal : String → Result Map) where
  -- Each call of the message in turn, with its arguments decoded.
  abbrev pub IsMapped : List WireToolCall → List ToolCall → Type 0
  IsMapped [] [] = Unit {0}
  IsMapped (c ∷ cs) (call ∷ calls) =
      ((call.id ≡ c.id)
        × (call.name ≡ c.function.name)
        × (decode_tool_arguments unmarshal c.function.arguments ≡ ok call.arguments))
      × IsMapped cs calls
  IsMapped _ _ = ⊥

  abbrev IsMappedResult : List WireToolCall → Result (List ToolCall) → Type 0
  IsMappedResult cs (err e) = Unit {0}
  IsMappedResult cs (ok calls) = IsMapped cs calls

  cons_mapped-IsMapped :
      (c : WireToolCall) (cs : List WireToolCall) (made : Result Map)
      (rest : Result (List ToolCall))
      → decode_tool_arguments unmarshal c.function.arguments ≡ made
      → IsMappedResult cs rest
      → IsMappedResult (c ∷ cs) (cons_mapped unmarshal (mapped_call unmarshal c made) rest)
  cons_mapped-IsMapped c cs (err e) rest d r = tt
  cons_mapped-IsMapped c cs (ok arguments) (err e) d r = tt
  cons_mapped-IsMapped c cs (ok arguments) (ok calls) d r = ((refl, refl, d), r)

  map_tool_calls-IsMapped :
      (cs : List WireToolCall) → IsMappedResult cs (map_tool_calls unmarshal cs)
  unfolding map_tool_calls
  map_tool_calls-IsMapped [] = tt
  map_tool_calls-IsMapped (c ∷ cs) =
      let made = decode_tool_arguments unmarshal c.function.arguments in
      cons_mapped-IsMapped c cs made (map_tool_calls unmarshal cs) refl (map_tool_calls-IsMapped cs)

  -- What a response has of the decoded one: its model and usage, and the content, the finish reason and
  -- the tool calls of the first choice.
  abbrev pub IsResponse : WireResponse → List WireChoice → ChatResponse → Type 0
  IsResponse decoded [] r =
      (r.model ≡ decoded.model) × IsUsage decoded.usage r.usage × (r.tool_calls ≡ [])
  IsResponse decoded (choice ∷ choices) r =
      (r.model ≡ decoded.model)
      × IsUsage decoded.usage r.usage
      × (r.content ≡ choice.message.content)
      × IsFinish choice.finish_reason r.finish_reason
      × IsMapped choice.message.tool_calls r.tool_calls

  abbrev IsResponseResult : WireResponse → List WireChoice → Result ChatResponse → Type 0
  IsResponseResult decoded choices (err e) = Unit {0}
  IsResponseResult decoded choices (ok r) = IsResponse decoded choices r

  chosen-IsResponse :
      (decoded : WireResponse) (choice : WireChoice) (choices : List WireChoice)
      (calls : Result (List ToolCall))
      → IsMappedResult choice.message.tool_calls calls
      → IsResponseResult decoded (choice ∷ choices) (chosen unmarshal decoded choice calls)
  chosen-IsResponse decoded choice choices (err e) m = tt
  chosen-IsResponse decoded choice choices (ok calls) m = (
    refl,
    usage_of-IsUsage decoded.usage,
    refl,
    map_finish_reason-IsFinish choice.finish_reason,
    m,
  )

  first_choice-IsResponse :
      (decoded : WireResponse) (choices : List WireChoice)
      → IsResponseResult decoded choices (first_choice unmarshal decoded choices)
  first_choice-IsResponse decoded [] = (refl, usage_of-IsUsage decoded.usage, refl)
  first_choice-IsResponse decoded (choice ∷ choices) =
      chosen-IsResponse decoded choice choices (map_tool_calls unmarshal choice.message.tool_calls)
        (map_tool_calls-IsMapped choice.message.tool_calls)

  -- A response that is returned has the model and the usage of the decoded one, and of its first choice
  -- the content, the finish reason and every tool call, in their order and with decoded arguments; with
  -- no choice it has no tool call.
  pub decoded_response-IsResponse :
      (decoded : WireResponse) (r : ChatResponse)
      → decoded_response unmarshal (ok decoded) ≡ ok r
      → IsResponse decoded decoded.choices r
  decoded_response-IsResponse decoded r made =
      subst (IsResponseResult decoded decoded.choices) made
        (first_choice-IsResponse decoded decoded.choices)

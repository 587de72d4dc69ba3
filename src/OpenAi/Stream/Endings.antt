-- ===== src/OpenAi/Stream/Endings.antt =====
-- How the chunks of a stream follow one another, and how a stream ends.
use ash_jazz_ai_agent.Prelude.{
  ℕ, zero, suc, String, Bool, true, false, not, ◌&&◌, ◌||◌, List, [], ◌∷◌, ◌++◌, map, Option, none,
  ◌≡◌, refl, arith, if◌then◌else◌, length, take, Bool-cases, Option-cases, inl, inr,
}
use ash_jazz_ai_agent.Errors.{Error, Result, ok, err}
use ash_jazz_ai_agent.Json.{Map}
use ash_jazz_ai_agent.Llm.{ChatChunk, ToolCall, is_tool_call}
use ash_jazz_ai_agent.OpenAi.ToolCalls.{ToolCallDelta, new_tool_call_accumulator, add, complete}
use ash_jazz_ai_agent.OpenAi.Wire.{StreamEvent, is_given}
use ash_jazz_ai_agent.OpenAi.Stream.{
  Processor, new_stream_event_processor, is_some, call_chunk, data_of, parse_stream_chunk,
  stream_chat_chunks,
}
use ash_jazz_ai_agent.OpenAi.Stream.Transcript.{
  completed, settled, continued, continued_in, followed, reply_event, reply, transcript,
}
use ash_jazz_ai_agent.OpenAi.Stream.Delivery.{taken, stream_chat_chunks-take}

abbrev is_nil {ℓ} : {A : Type ℓ} → List A → Bool
is_nil [] = true
is_nil (a ∷ rest) = false

-- Nothing follows a chunk with an error, and a tool call comes only after a chunk whose finish reason
-- says that the calls are finished. `finished` says that one has been sent.
unfoldable pub follows : Bool → List ChatChunk → Bool
follows finished [] = true
follows finished (c ∷ cs) =
    let later = follows (finished || is_tool_call c.finish_reason) cs in
    (not (is_some c.delta_tool_call) || finished)
    && (if is_some c.failure then is_nil cs else later)

follows-take :
    (n : ℕ) (finished : Bool) (cs : List ChatChunk)
    → follows finished cs ≡ true
    → follows finished (take n cs) ≡ true
unfolding follows
follows-take zero finished cs h = refl
follows-take (suc n) finished [] h = refl
follows-take (suc zero) finished (c ∷ []) h = ground (arith, h)
follows-take (suc zero) finished (c ∷ d ∷ cs) h = ground (arith, h)
follows-take (suc (suc n)) finished (c ∷ []) h = ground (arith, h)
follows-take (suc (suc n)) finished (c ∷ d ∷ cs) h =
    ground (arith, h, follows-take (suc n) (finished || is_tool_call c.finish_reason) (d ∷ cs))

follows-calls :
    (calls : List ToolCall) (rest : List ChatChunk)
    → follows true (map call_chunk calls ++ rest) ≡ follows true rest
unfolding follows
follows-calls [] rest = refl
follows-calls (call ∷ calls) rest = follows-calls calls rest

-- A chunk of an event is no tool call, and gives no finish reason when it has an error.
abbrev IsEventChunk : ChatChunk → Type 0
IsEventChunk c =
    (c.delta_tool_call ≡ none) × ((is_some c.failure && is_given c.finish_reason) ≡ false)

module _ (unmarshal : String → Result Map) (unmarshal_event : String → Result StreamEvent) where
  parse-IsEventChunk :
      (text : String) → IsEventChunk (parse_stream_chunk unmarshal unmarshal_event text).0
  unfolding parse_stream_chunk
  parse-IsEventChunk text = ground arith

  follows-completed :
      (finished : Bool) (rest : Processor → List ChatChunk) (chunk : ChatChunk) (p : Processor)
      (made : Result (List ToolCall))
      → IsEventChunk chunk
      → is_tool_call chunk.finish_reason ≡ true
      → ((p : Processor) → follows true (rest p) ≡ true)
      → follows finished (chunk ∷ continued rest (completed chunk p made)) ≡ true
  unfolding follows
  follows-completed finished rest chunk p (err e) c t h = ground (arith, c, t)
  follows-completed finished rest chunk p (ok calls) c t h =
      let next = record p { tool_calls = new_tool_call_accumulator } in
      ground (
        arith,
        c,
        t,
        follows-calls calls (continued_in rest (settled chunk next)),
        h next,
        h (record next { saw_terminal_event = true }),
      )

  follows-event :
      (finished : Bool) (rest : Processor → List ChatChunk)
      (e : ChatChunk × List ToolCallDelta × Bool) (p : Processor)
      → IsEventChunk e.0
      → ((f : Bool) (p : Processor) → follows f (rest p) ≡ true)
      → follows finished (continued rest (reply_event unmarshal unmarshal_event e p)) ≡ true
  unfolding reply_event followed follows
  follows-event finished rest (chunk, deltas, emit_chunk) p c h =
      let p' = record p { tool_calls = add deltas p.tool_calls } in
      let made = complete unmarshal p'.tool_calls in
      elim (Bool-cases (is_tool_call chunk.finish_reason)) [
        | inl t ↦ ground (
          arith,
          t,
          h finished p',
          follows-completed finished rest chunk p' made c t (λ q. h true q),
        )
        | inr t ↦
            ground
              (arith, t, c, h finished p', h finished (record p' { saw_terminal_event = true }))
      ]

  follows-reply :
      (finished : Bool) (rest : Processor → List ChatChunk) (text : String) (p : Processor)
      → ((f : Bool) (p : Processor) → follows f (rest p) ≡ true)
      → follows finished (continued rest (reply unmarshal unmarshal_event text p)) ≡ true
  unfolding reply follows
  follows-reply finished rest text p h =
      let e = parse_stream_chunk unmarshal unmarshal_event text in
      ground (arith, follows-event finished rest e p (parse-IsEventChunk text) h)

  follows-transcript :
      (ended scan_err : Option Error) (lines : List String) (finished : Bool) (p : Processor)
      → follows finished (transcript unmarshal unmarshal_event ended scan_err lines p) ≡ true
  unfolding transcript follows
  follows-transcript ended scan_err [] finished p = ground arith
  follows-transcript ended scan_err (line ∷ lines) finished p = elim (Option-cases (data_of line)) [
    | inl e ↦ rw (e, transcript) (follows-transcript ended scan_err lines finished p)
    | inr (text, e) ↦
        let rest = transcript unmarshal unmarshal_event ended scan_err lines in
        rw (e, transcript)
          (follows-reply finished rest text p (λ f q. follows-transcript ended scan_err lines f q))
  ]

  -- Whatever the context cuts off, nothing follows a chunk with an error, and a tool call comes only
  -- after a chunk whose finish reason says that the calls are finished.
  pub stream_chat_chunks-follows :
      (accepts : ℕ → Bool) (ended scan_err : Option Error) (lines : List String)
      → follows false (stream_chat_chunks unmarshal unmarshal_event accepts ended scan_err lines)
        ≡ true
  stream_chat_chunks-follows accepts ended scan_err lines =
      let p = new_stream_event_processor in
      let meant = transcript unmarshal unmarshal_event ended scan_err lines p in
      rw (stream_chat_chunks-take unmarshal unmarshal_event accepts ended scan_err lines) (
        follows-take (taken unmarshal unmarshal_event accepts 0 (length meant)) false meant
          (follows-transcript ended scan_err lines false p))

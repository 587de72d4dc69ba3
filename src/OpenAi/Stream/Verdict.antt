-- ===== src/OpenAi/Stream/Verdict.antt =====
-- A stream that breaks off is never silent.
use ash_jazz_ai_agent.Prelude.{
  ℕ, ◌+◌, String, Bool, true, false, ◌||◌, List, [], ◌∷◌, ◌++◌, Option, none, some, ◌≡◌, refl,
  arith, length, take, Bool-cases, Option-cases, inl, inr, ◌⊎◌,
}
use ash_jazz_ai_agent.Errors.{Error, Result, Result-cases}
use ash_jazz_ai_agent.Json.{Map}
use ash_jazz_ai_agent.Llm.{ChatChunk}
use ash_jazz_ai_agent.OpenAi.ToolCalls.{ToolCallDelta, add, complete}
use ash_jazz_ai_agent.OpenAi.Wire.{StreamEvent, is_given}
use ash_jazz_ai_agent.OpenAi.Stream.{
  Processor, new_stream_event_processor, is_some, is_done, data_of, parse_stream_chunk,
  stream_chat_chunks,
}
use ash_jazz_ai_agent.OpenAi.Stream.Transcript.{
  Reply, continued, followed, reply_event, reply, transcript,
}
use ash_jazz_ai_agent.OpenAi.Stream.Delivery.{taken, stream_chat_chunks-take}

-- A chunk that tells how the stream ended: an error, or a finish reason.
abbrev is_verdict : ChatChunk → Bool
is_verdict c = is_some c.failure || is_given c.finish_reason

unfoldable pub has_verdict : List ChatChunk → Bool
has_verdict [] = false
has_verdict (c ∷ cs) = let later = has_verdict cs in is_verdict c || later

abbrev is_done_line : Option String → Bool
is_done_line none = false
is_done_line (some text) = is_done text

-- Does one of the lines hold the end marker?
unfoldable pub has_done : List String → Bool
has_done [] = false
has_done (line ∷ lines) = let later = has_done lines in is_done_line (data_of line) || later

has_verdict-append :
    (xs ys : List ChatChunk) → has_verdict (xs ++ ys) ≡ (has_verdict xs || has_verdict ys)
unfolding has_verdict
has_verdict-append [] ys = refl
has_verdict-append (x ∷ xs) ys = ground (arith, has_verdict-append xs ys)

-- What the processor that a reply leaves has seen, when the stream goes on.
abbrev saw_next : Option Processor → Bool
saw_next none = true
saw_next (some p) = p.saw_terminal_event

-- Each reply has a verdict, or leaves what was seen before.
abbrev Keeps : Bool → Reply → Type 0
Keeps saw (chunks, none) = has_verdict chunks ≡ true
Keeps saw (chunks, some p) = (p.saw_terminal_event ≡ saw) ⊎ (has_verdict chunks ≡ true)

module _ (unmarshal : String → Result Map) (unmarshal_event : String → Result StreamEvent) where
  event-Keeps :
      (e : ChatChunk × List ToolCallDelta × Bool) (p : Processor)
      → Keeps p.saw_terminal_event (reply_event unmarshal unmarshal_event e p)
  unfolding reply_event followed has_verdict
  event-Keeps (chunk, deltas, emit_chunk) p =
      let p' = record p { tool_calls = add deltas p.tool_calls } in
      elim (Result-cases (complete unmarshal p'.tool_calls)) [
        | inl (x, e) ↦ ground (arith, e)
        | inr (calls, e) ↦ ground (arith, e)
      ]

  -- A reply that ends the stream has a verdict, unless it is to the end marker.
  abbrev KeepsOrDone : String → Bool → Reply → Type 0
  KeepsOrDone text saw r = (is_done text ≡ true) ⊎ Keeps saw r

  reply-KeepsOrDone :
      (text : String) (p : Processor)
      → KeepsOrDone text p.saw_terminal_event (reply unmarshal unmarshal_event text p)
  unfolding reply
  reply-KeepsOrDone text p = elim (Bool-cases (is_done text)) [
    | inl e ↦ inl e
    | inr e ↦
        rw (e, KeepsOrDone, reply)
          (inr (event-Keeps (parse_stream_chunk unmarshal unmarshal_event text) p))
  ]

  module _ (scan_err : Option Error) where
    abbrev meant : List String → Processor → List ChatChunk
    meant lines p = transcript unmarshal unmarshal_event none scan_err lines p

    continued-has_verdict :
        (text : String) (p : Processor) (lines : List String) (r : Reply)
        → KeepsOrDone text p.saw_terminal_event r
        → ((q : Processor)
            → (has_verdict (meant lines q) || (q.saw_terminal_event || has_done lines)) ≡ true)
        → (has_verdict (continued (meant lines) r)
            || (p.saw_terminal_event || (is_done text || has_done lines)))
          ≡ true
    unfolding has_verdict
    continued-has_verdict text p lines (chunks, none) k h =
        ground (arith, k, has_verdict-append chunks [])
    continued-has_verdict text p lines (chunks, some q) k h =
        ground (arith, k, h q, has_verdict-append chunks (meant lines q))

    meant-has_verdict :
        (lines : List String) (p : Processor)
        → (has_verdict (meant lines p) || (p.saw_terminal_event || has_done lines)) ≡ true
    unfolding transcript has_verdict has_done
    meant-has_verdict [] p = ground arith
    meant-has_verdict (line ∷ lines) p = elim (Option-cases (data_of line)) [
      | inl e ↦ rw (e, transcript, has_done) (meant-has_verdict lines p)
      | inr (text, e) ↦
          let r = reply unmarshal unmarshal_event text p in
          rw (e, transcript, has_done)
            (continued-has_verdict text p lines r (reply-KeepsOrDone text p)
              (λ q. meant-has_verdict lines q))
    ]

  take-taken :
      (accepts : ℕ → Bool) (n : ℕ) (cs : List ChatChunk)
      → ((k : ℕ) → accepts k ≡ true)
      → take (taken unmarshal unmarshal_event accepts n (length cs)) cs ≡ cs
  unfolding taken
  take-taken accepts n [] h = refl
  take-taken accepts n (c ∷ cs) h = ground (arith, h n, take-taken accepts (n + 1) cs h)

  -- A caller that takes every chunk, and whose context does not end, gets an error or a finish reason,
  -- or the stream had its end marker: a stream that breaks off in between is not silent.
  pub stream_chat_chunks-has_verdict :
      (accepts : ℕ → Bool) (scan_err : Option Error) (lines : List String)
      → ((k : ℕ) → accepts k ≡ true)
      → (has_verdict (stream_chat_chunks unmarshal unmarshal_event accepts none scan_err lines)
          || has_done lines)
        ≡ true
  stream_chat_chunks-has_verdict accepts scan_err lines all =
      let p = new_stream_event_processor in
      rw (stream_chat_chunks-take unmarshal unmarshal_event accepts none scan_err lines) (
        rw (take-taken accepts 0 (meant scan_err lines p) all) (meant-has_verdict scan_err lines p))

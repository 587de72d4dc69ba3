-- ===== src/OpenAi/Stream/Delivery.antt =====
-- The goroutine delivers the transcript of its stream, until a send is cut off by the context.
use mathlib.Core.List.{append-nil, append_assoc}
use ash_jazz_ai_agent.Prelude.{
  ℕ, zero, suc, ◌+◌, String, Bool, true, false, List, [], ◌∷◌, ◌++◌, map, Option, none, some, ◌≡◌,
  refl, sym, ap, ◌∙◌, arith, if◌then◌else◌, length, take, Option-cases, inl, inr,
}
use ash_jazz_ai_agent.Errors.{Error, Result, ok, err}
use ash_jazz_ai_agent.Json.{Map}
use ash_jazz_ai_agent.Llm.{ChatChunk, ToolCall}
use ash_jazz_ai_agent.OpenAi.ToolCalls.{ToolCallDelta, add, complete}
use ash_jazz_ai_agent.OpenAi.Wire.{StreamEvent}
use ash_jazz_ai_agent.OpenAi.Stream.{
  Processor, Sink, new_sink, new_stream_event_processor, call_chunk, data_of, parse_stream_chunk,
  send, send_calls, emit_completed_tool_calls, process, settle_chunk, emit_completed, after_chunk,
  process_event, report_stream_read_end, read_lines, stream_chat_chunks,
}
use ash_jazz_ai_agent.OpenAi.Stream.Transcript.{
  Reply, completed, continued, followed, reply_event, reply, transcript,
}

module _ (unmarshal : String → Result Map) (unmarshal_event : String → Result StreamEvent)
    (accepts : ℕ → Bool) where
  abbrev offer : ChatChunk → Sink → Sink × Bool
  offer chunk sink = send unmarshal unmarshal_event accepts chunk sink

  -- Chunk after chunk, up to the first that is not taken.
  unfoldable deliver : List ChatChunk → Sink → Sink × Bool
  unfolding send
  deliver [] sink = (sink, true)
  deliver (c ∷ cs) sink =
      let (sink', taken) = offer c sink in
      let rest = deliver cs sink' in if taken then rest else (sink', false)

  deliver-append :
      (xs ys : List ChatChunk) (sink : Sink)
      → (deliver (xs ++ ys) sink).0
        ≡ (let (sink', all) = deliver xs sink in if all then (deliver ys sink').0 else sink')
  unfolding deliver
  deliver-append [] ys sink = refl
  deliver-append (x ∷ xs) ys sink = ground (arith, deliver-append xs ys (offer x sink).0)

  send_calls-deliver :
      (calls : List ToolCall) (sink : Sink)
      → send_calls unmarshal unmarshal_event accepts calls sink
        ≡ deliver (map call_chunk calls) sink
  unfolding deliver send_calls
  send_calls-deliver [] sink = refl
  send_calls-deliver (call ∷ calls) sink =
      ground (arith, send_calls-deliver calls (offer (call_chunk call) sink).0)

  -- What a reply leaves of the sink, when `k` is how the stream goes on.
  abbrev go_on_in : (Processor → Sink → Sink) → Option Processor → Sink × Bool → Sink
  go_on_in k next (sink, false) = sink
  go_on_in k none (sink, true) = sink
  go_on_in k (some p) (sink, true) = k p sink

  abbrev resume : (Processor → Sink → Sink) → Reply → Sink → Sink
  resume k (chunks, next) sink = go_on_in k next (deliver chunks sink)

  abbrev proceed : (Processor → Sink → Sink) → Processor × Sink × Bool → Sink
  proceed k (p, sink, go_on) = if go_on then k p sink else sink

  completed-resume :
      (k : Processor → Sink → Sink) (chunk : ChatChunk) (p : Processor) (sink : Sink)
      (made : Result (List ToolCall))
      → proceed k (
          settle_chunk unmarshal unmarshal_event accepts chunk
            (emit_completed unmarshal unmarshal_event accepts p sink made))
        ≡ resume k (completed chunk p made) sink
  unfolding deliver
  completed-resume k chunk p sink (err e) = ground arith
  completed-resume k chunk p sink (ok calls) = ground (arith, send_calls-deliver calls sink)

  followed-resume :
      (k : Processor → Sink → Sink) (chunk : ChatChunk) (p : Processor) (sink : Sink)
      → proceed k (after_chunk unmarshal unmarshal_event accepts chunk p (sink, true))
        ≡ resume k (followed unmarshal unmarshal_event chunk p) sink
  unfolding followed deliver emit_completed_tool_calls
  followed-resume k chunk p sink =
      ground (arith, completed-resume k chunk p sink (complete unmarshal p.tool_calls))

  event-resume :
      (k : Processor → Sink → Sink) (e : ChatChunk × List ToolCallDelta × Bool) (p : Processor)
      (sink : Sink)
      → proceed k (process_event unmarshal unmarshal_event accepts e p sink)
        ≡ resume k (reply_event unmarshal unmarshal_event e p) sink
  unfolding reply_event deliver
  event-resume k (chunk, deltas, emit_chunk) p sink = ground (
    arith,
    followed-resume k chunk (record p { tool_calls = add deltas p.tool_calls })
        (offer chunk sink).0,
  )

  process-resume :
      (k : Processor → Sink → Sink) (text : String) (p : Processor) (sink : Sink)
      → proceed k (process unmarshal unmarshal_event accepts text p sink)
        ≡ resume k (reply unmarshal unmarshal_event text p) sink
  unfolding process reply deliver
  process-resume k text p sink =
      ground (arith, event-resume k (parse_stream_chunk unmarshal unmarshal_event text) p sink)

  resume-continued :
      (k : Processor → Sink → Sink) (rest : Processor → List ChatChunk) (r : Reply) (sink : Sink)
      → ((p : Processor) (s : Sink) → k p s ≡ (deliver (rest p) s).0)
      → resume k r sink ≡ (deliver (continued rest r) sink).0
  unfolding deliver
  resume-continued k rest (chunks, none) sink h = ground (arith, deliver-append chunks [] sink)
  resume-continued k rest (chunks, some p) sink h =
      ground (arith, deliver-append chunks (rest p) sink, h p (deliver chunks sink).0)

  read_lines-deliver :
      (ended scan_err : Option Error) (lines : List String) (p : Processor) (sink : Sink)
      → read_lines unmarshal unmarshal_event accepts ended scan_err lines p sink
        ≡ (deliver (transcript unmarshal unmarshal_event ended scan_err lines p) sink).0
  unfolding read_lines transcript report_stream_read_end deliver
  read_lines-deliver ended scan_err [] p sink = ground arith
  read_lines-deliver ended scan_err (line ∷ lines) p sink = elim (Option-cases (data_of line)) [
    | inl e ↦ rw (e, read_lines, transcript) (read_lines-deliver ended scan_err lines p sink)
    | inr (text, e) ↦
        let k = read_lines unmarshal unmarshal_event accepts ended scan_err lines in
        let rest = transcript unmarshal unmarshal_event ended scan_err lines in
        rw (e, read_lines, transcript)
          (process-resume k text p sink
            ∙ resume-continued k rest (reply unmarshal unmarshal_event text p) sink
                (λ p' s. read_lines-deliver ended scan_err lines p' s))
  ]

  -- How many of `left` sends are taken in a row, from the n-th on.
  unfoldable pub taken : ℕ → ℕ → ℕ
  taken n zero = 0
  taken n (suc left) = let rest = taken (n + 1) left in if accepts n then suc rest else 0

  deliver-take :
      (cs : List ChatChunk) (sink : Sink)
      → (deliver cs sink).0.sent ≡ sink.sent ++ take (taken sink.attempts (length cs)) cs
  unfolding deliver taken
  deliver-take [] sink = sym (append-nil sink.sent)
  deliver-take (c ∷ cs) sink = ground (
    arith,
    deliver-take cs (offer c sink).0,
    append_assoc sink.sent (c ∷ []) (take (taken (sink.attempts + 1) (length cs)) cs),
    append-nil sink.sent,
  )

  -- The caller of a stream receives its transcript, up to the first send that the end of the context
  -- cuts off: every chunk in its order, none twice, and none behind a chunk that was not taken.
  pub stream_chat_chunks-take :
      (ended scan_err : Option Error) (lines : List String)
      → let meant =
          transcript unmarshal unmarshal_event ended scan_err lines new_stream_event_processor in
        stream_chat_chunks unmarshal unmarshal_event accepts ended scan_err lines
        ≡ take (taken 0 (length meant)) meant
  unfolding stream_chat_chunks
  stream_chat_chunks-take ended scan_err lines =
      let meant =
        transcript unmarshal unmarshal_event ended scan_err lines new_stream_event_processor in
      ap (λ (s : Sink). s.sent)
        (read_lines-deliver ended scan_err lines new_stream_event_processor new_sink)
      ∙ deliver-take meant new_sink

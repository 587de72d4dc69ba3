-- ===== src/OpenAi/Stream/Transcript.antt =====
-- The transcript of a stream: the chunks that its lines and its end mean, without a channel.
use ash_jazz_ai_agent.Prelude.{
  String, Bool, true, List, [], ◌∷◌, ◌++◌, map, Option, none, some, if◌then◌else◌,
}
use ash_jazz_ai_agent.Errors.{Error, Result, ok, err}
use ash_jazz_ai_agent.Json.{Map}
use ash_jazz_ai_agent.Llm.{ChatChunk, ToolCall, is_tool_call}
use ash_jazz_ai_agent.OpenAi.ToolCalls.{
  ToolCallDelta, new_tool_call_accumulator, add, has_pending, complete,
}
use ash_jazz_ai_agent.OpenAi.Wire.{StreamEvent, is_given}
use ash_jazz_ai_agent.OpenAi.Stream.{
  Processor, is_some, failed_chunk, call_chunk, unfinished_calls, read_failed, cut_short, is_done,
  data_of, parse_stream_chunk,
}

-- The chunks of one event, and the state in which the stream goes on, if it does.
abbrev pub Reply : Type 0
Reply = List ChatChunk × Option Processor

abbrev pub settled : ChatChunk → Processor → Option Processor
settled chunk p =
    if is_some chunk.failure
    then none
    else some (if is_given chunk.finish_reason then record p { saw_terminal_event = true } else p)

abbrev pub completed : ChatChunk → Processor → Result (List ToolCall) → Reply
completed chunk p (err e) = (failed_chunk e ∷ [], none)
completed chunk p (ok calls) =
    (map call_chunk calls, settled chunk (record p { tool_calls = new_tool_call_accumulator }))

abbrev pub continued_in : (Processor → List ChatChunk) → Option Processor → List ChatChunk
continued_in rest none = []
continued_in rest (some p) = rest p

-- The chunks of a reply, and what the stream sends when it goes on.
abbrev pub continued : (Processor → List ChatChunk) → Reply → List ChatChunk
continued rest (chunks, next) = chunks ++ continued_in rest next

module _ (unmarshal : String → Result Map) (unmarshal_event : String → Result StreamEvent) where
  -- What follows a chunk: its tool calls, when it says that they are finished.
  unfoldable pub followed : ChatChunk → Processor → Reply
  unfolding complete
  followed chunk p =
      if is_tool_call chunk.finish_reason
      then completed chunk p (complete unmarshal p.tool_calls)
      else ([], settled chunk p)

  unfoldable pub reply_event : ChatChunk × List ToolCallDelta × Bool → Processor → Reply
  unfolding followed add
  reply_event (chunk, deltas, emit_chunk) p =
      let p' = record p { tool_calls = add deltas p.tool_calls } in
      let (chunks, next) = followed chunk p' in
      if emit_chunk then (chunk ∷ chunks, next) else ([], some p')

  unfoldable pub reply : String → Processor → Reply
  unfolding reply_event parse_stream_chunk
  reply text p =
      if is_done text
      then (if has_pending p.tool_calls
          then (failed_chunk unfinished_calls ∷ [], none)
          else ([], none))
      else reply_event (parse_stream_chunk unmarshal unmarshal_event text) p

  module _ (ended scan_err : Option Error) where
    abbrev scan_ending : Option Error → Bool → List ChatChunk
    scan_ending (some e) saw = failed_chunk (read_failed e) ∷ []
    scan_ending none saw = if saw then [] else failed_chunk cut_short ∷ []

    -- The last chunk, when the lines end before the stream does.
    abbrev pub ending : Option Error → Bool → List ChatChunk
    ending (some e) saw = []
    ending none saw = scan_ending scan_err saw

    unfoldable pub transcript : List String → Processor → List ChatChunk
    unfolding reply
    transcript [] p = ending ended p.saw_terminal_event
    transcript (line ∷ lines) p =
        let skipped = transcript lines p in
        elim (data_of line) [
          | none ↦ skipped
          | some text ↦ continued (λ p'. transcript lines p') (reply text p)
        ]

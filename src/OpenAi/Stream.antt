-- ===== src/OpenAi/Stream.antt =====
-- pkg/ai/llm/openai/stream.go: the goroutine that reads a stream. Its channel and its context are a sink:
-- `accepts n` says whether the n-th send is taken, or the context ended first. `scan` is what the
-- scanner of the body reads: its lines, and its error. json.Unmarshal is a parameter.
pub mod Transcript
pub mod Delivery
pub mod Endings
pub mod Verdict
pub mod Tests
use ash_jazz_ai_agent.Prelude.{
  ℕ, ◌+◌, String, Bool, true, false, not, ◌&&◌, ◌||◌, List, [], ◌∷◌, ◌++◌, Option, none, some,
  if◌then◌else◌,
}
use ash_jazz_ai_agent.Prelude.Int.{is_zero}
use ash_jazz_ai_agent.Prelude.Substring.{has_prefix, trim_prefix}
use ash_jazz_ai_agent.Prelude.Text.{is_empty, text_beq, trim_space}
use ash_jazz_ai_agent.Errors.{Error, Sentinel, sentinel, errorf, wrapf, Result, ok, err}
use ash_jazz_ai_agent.Errors
use ash_jazz_ai_agent.Json.{Map}
use ash_jazz_ai_agent.Llm.{ChatChunk, FinishReason, ToolCall, Usage, is_tool_call}
use ash_jazz_ai_agent.OpenAi.ToolCalls.{
  Accumulator, ToolCallDelta, new_tool_call_accumulator, add, has_pending, complete,
}
use ash_jazz_ai_agent.OpenAi.Wire.{
  ErrorBody, StreamChoice, StreamEvent, WireUsage, is_given, map_finish_reason, usage_of,
}
use ash_jazz_ai_agent.OpenAi.Failures.{build_stream_error_message}

abbrev pub empty_chunk : ChatChunk
empty_chunk = record {
  delta_content = "";
  delta_tool_call = none;
  finish_reason = FinishReason.other "";
  usage = none;
  failure = none;
}

abbrev pub failed_chunk : Error → ChatChunk
failed_chunk e = record empty_chunk { failure = some e }

-- The chunks that were taken, and how many were offered.
pub record Sink : Type 0 where
  pub attempts : ℕ
  pub sent : List ChatChunk

abbrev pub new_sink : Sink
new_sink = record { attempts = 0; sent = [] }

pub record Processor : Type 0 where
  pub tool_calls : Accumulator
  pub saw_terminal_event : Bool

abbrev pub new_stream_event_processor : Processor
new_stream_event_processor = record {
  tool_calls = new_tool_call_accumulator;
  saw_terminal_event = false;
}

abbrev has_error : ErrorBody → Bool
has_error body =
    not (is_empty body.message)
    || (not (is_empty body.error_type) || not (is_empty body.error_code))

abbrev choice_chunk : StreamChoice → ChatChunk
choice_chunk c = record empty_chunk {
  delta_content = c.delta.content;
  finish_reason = map_finish_reason c.finish_reason;
}

abbrev first_chunk : List StreamChoice → ChatChunk
first_chunk [] = empty_chunk
first_chunk (c ∷ cs) = choice_chunk c

abbrev first_deltas : List StreamChoice → List ToolCallDelta
first_deltas [] = []
first_deltas (c ∷ cs) = c.delta.tool_calls

-- A usage is passed on when one of its counts is not zero.
abbrev usage_sent : WireUsage → Option Usage
usage_sent u =
    if is_zero u.prompt_tokens && (is_zero u.completion_tokens && is_zero u.total_tokens)
    then none
    else some (usage_of u)

abbrev pub is_some {ℓ} : {A : Type ℓ} → Option A → Bool
is_some none = false
is_some (some a) = true

abbrev is_emitted : ChatChunk → Bool
is_emitted c = not (is_empty c.delta_content) || (is_given c.finish_reason || is_some c.usage)

abbrev event_chunk : StreamEvent → ChatChunk
event_chunk event = record (first_chunk event.choices) { usage = usage_sent event.usage }

-- A chunk, the fragments of tool calls, and whether the chunk is to be sent.
abbrev parsed : Result StreamEvent → ChatChunk × List ToolCallDelta × Bool
parsed (err e) = (failed_chunk (wrapf "decode openai stream event: %w" [] e), [], true)
parsed (ok event) =
    if has_error event.error
    then (failed_chunk (errorf "%s" (build_stream_error_message event.error ∷ [])), [], true)
    else (event_chunk event, first_deltas event.choices, is_emitted (event_chunk event))

abbrev pub unfinished_calls : Error
unfinished_calls = errorf "openai stream ended before finish_reason=tool_calls" []

abbrev pub is_done : String → Bool
is_done data_text = text_beq data_text "[DONE]"

-- The `data:` text of a line, if it has one.
abbrev pub data_of : String → Option String
data_of raw =
    let line = trim_space raw in
    if is_empty line || has_prefix line ":"
    then none
    else if has_prefix line "data:"
    then some (trim_space (trim_prefix line "data:"))
    else none

abbrev pub read_failed : Error → Error
read_failed e = wrapf "read openai stream: %w" [] (Errors.join (sentinel Sentinel.upstream) e)

abbrev pub cut_short : Error
cut_short =
    wrapf "read openai stream: unexpected EOF before terminal event: %w" []
      (sentinel Sentinel.upstream)

abbrev pub call_chunk : ToolCall → ChatChunk
call_chunk call = record empty_chunk { delta_tool_call = some call }

module _ (unmarshal : String → Result Map) (unmarshal_event : String → Result StreamEvent) where
  unfoldable pub parse_stream_chunk : String → ChatChunk × List ToolCallDelta × Bool
  unfolding map_finish_reason build_stream_error_message
  parse_stream_chunk text = parsed (unmarshal_event text)

  module _ (accepts : ℕ → Bool) where
    -- `sendStreamChunk`
    unfoldable pub send : ChatChunk → Sink → Sink × Bool
    send chunk sink =
        if accepts sink.attempts
        then (record { attempts = sink.attempts + 1; sent = sink.sent ++ chunk ∷ [] }, true)
        else (record sink { attempts = sink.attempts + 1 }, false)

    -- The loop over completed calls, which stops at the first that is not taken.
    unfoldable pub send_calls : List ToolCall → Sink → Sink × Bool
    unfolding send
    send_calls [] sink = (sink, true)
    send_calls (call ∷ calls) sink =
        let (sink', taken) = send (call_chunk call) sink in
        let (later, all_taken) = send_calls calls sink' in
        if taken then (later, all_taken) else (sink', false)

    abbrev pub finish_calls : Processor → Sink × Bool → Processor × Sink × Bool
    finish_calls p (sink, true) = (record p { tool_calls = new_tool_call_accumulator }, sink, true)
    finish_calls p (sink, false) = (p, sink, false)

    abbrev pub emit_completed : Processor → Sink → Result (List ToolCall) → Processor × Sink × Bool
    emit_completed p sink (err e) = (p, (send (failed_chunk e) sink).0, false)
    emit_completed p sink (ok calls) = finish_calls p (send_calls calls sink)

    unfoldable pub emit_completed_tool_calls : Processor → Sink → Processor × Sink × Bool
    unfolding send send_calls complete
    emit_completed_tool_calls p sink = emit_completed p sink (complete unmarshal p.tool_calls)

    -- What follows the chunk itself: the terminal event, and whether the stream goes on.
    abbrev pub settle_chunk : ChatChunk → Processor × Sink × Bool → Processor × Sink × Bool
    settle_chunk chunk (p, sink, false) = (p, sink, false)
    settle_chunk chunk (p, sink, true) = (
      if is_given chunk.finish_reason then record p { saw_terminal_event = true } else p,
      sink,
      not (is_some chunk.failure),
    )

    abbrev pub after_chunk : ChatChunk → Processor → Sink × Bool → Processor × Sink × Bool
    after_chunk chunk p (sink, false) = (p, sink, false)
    after_chunk chunk p (sink, true) = settle_chunk chunk (
        if is_tool_call chunk.finish_reason
        then emit_completed_tool_calls p sink
        else (p, sink, true))

    abbrev pub process_done : Processor → Sink → Processor × Sink × Bool
    process_done p sink =
        if has_pending p.tool_calls
        then (p, (send (failed_chunk unfinished_calls) sink).0, false)
        else (record p { saw_terminal_event = true }, sink, false)

    abbrev pub process_event :
        ChatChunk × List ToolCallDelta × Bool → Processor → Sink → Processor × Sink × Bool
    process_event (chunk, deltas, emit_chunk) p sink =
        let p' = record p { tool_calls = add deltas p.tool_calls } in
        if emit_chunk then after_chunk chunk p' (send chunk sink) else (p', sink, true)

    -- `Process`: the last component says whether to go on reading.
    unfoldable pub process : String → Processor → Sink → Processor × Sink × Bool
    unfolding parse_stream_chunk send emit_completed_tool_calls add
    process text p sink =
        if is_done text then process_done p sink else process_event (parse_stream_chunk text) p sink

    -- `reportStreamReadEnd`: `ended` is ctx.Err().
    abbrev report_scan : Option Error → Bool → Sink → Sink
    report_scan (some e) saw sink = (send (failed_chunk (read_failed e)) sink).0
    report_scan none saw sink = if saw then sink else (send (failed_chunk cut_short) sink).0

    unfoldable pub report_stream_read_end : Option Error → Option Error → Bool → Sink → Sink
    unfolding send
    report_stream_read_end (some ended) scan_err saw sink = sink
    report_stream_read_end none scan_err saw sink = report_scan scan_err saw sink

    -- The loop of `streamChatChunks` over the scanner's lines.
    unfoldable pub read_lines : Option Error → Option Error → List String → Processor → Sink → Sink
    unfolding process report_stream_read_end has_prefix trim_prefix trim_space
    read_lines ended scan_err [] p sink =
        report_stream_read_end ended scan_err p.saw_terminal_event sink
    read_lines ended scan_err (line ∷ lines) p sink =
        let skipped = read_lines ended scan_err lines p sink in
        elim (data_of line) [
          | none ↦ skipped
          | some text ↦
              let (p', sink', go_on) = process text p sink in
              let rest = read_lines ended scan_err lines p' sink' in if go_on then rest else sink'
        ]

    -- `streamChatChunks`: the chunks that the caller receives before the channel is closed.
    unfoldable pub stream_chat_chunks : Option Error → Option Error → List String → List ChatChunk
    unfolding read_lines
    stream_chat_chunks ended scan_err lines =
        (read_lines ended scan_err lines new_stream_event_processor new_sink).sent

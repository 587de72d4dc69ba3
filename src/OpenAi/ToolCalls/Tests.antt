-- ===== src/OpenAi/ToolCalls/Tests.antt =====
-- Two tool calls whose fragments interleave.
use ash_jazz_ai_agent.Prelude.{String, List, [], ◌∷◌, some, ◌≡◌, refl}
use ash_jazz_ai_agent.Prelude.Dict.{lookup}
use ash_jazz_ai_agent.Prelude.Int.{ℤ, pos, ltb_ℤ}
use ash_jazz_ai_agent.Prelude.Sort.{IsSorted, sort}
use ash_jazz_ai_agent.Prelude.Text.{trim_space}
use ash_jazz_ai_agent.Errors.{Result, ok}
use ash_jazz_ai_agent.Json.{Fields, Value, Map}
use ash_jazz_ai_agent.Llm.{ToolCall}
use ash_jazz_ai_agent.OpenAi.ToolCalls.{
  ToolCallDelta, Accumulator, index_key, new_tool_call_accumulator, or_empty, add, indexes,
  complete, decode_tool_arguments,
}
use ash_jazz_ai_agent.OpenAi.ToolCalls.Buffers.{own, IsWritten, add-IsWritten}
use ash_jazz_ai_agent.OpenAi.ToolCalls.Completion.{IsComplete, complete-IsComplete}

abbrev delta : ℤ → String → String → String → ToolCallDelta
delta index id name arguments = record {
  index = index;
  id = id;
  delta_type = "function";
  function = record { name = name; arguments = arguments };
}

abbrev deltas : List ToolCallDelta
deltas = delta (pos 1) "b" "find" "{" ∷ delta (pos 0) "a" "get" "" ∷ delta (pos 1) "" "" "}" ∷ []

add-IsWritten_example :
    IsWritten
      (or_empty (lookup (pos 1) new_tool_call_accumulator))
      (own (pos 1) deltas)
      (or_empty (lookup (pos 1) (add deltas new_tool_call_accumulator)))
add-IsWritten_example = add-IsWritten (pos 1) deltas new_tool_call_accumulator

-- A decoder that keeps the text.
abbrev unmarshal : String → Result Map
unmarshal raw = ok (some (Fields.field "raw" (Value.text raw) Fields.no_field))

abbrev accumulator : Accumulator
accumulator = add deltas new_tool_call_accumulator

abbrev calls : List ToolCall
calls =
    (record { id = "a"; name = "get"; arguments = some Fields.no_field })
    ∷ (record {
      id = "b";
      name = "find";
      arguments = some (Fields.field "raw" (Value.text "{}") Fields.no_field);
    })
    ∷ []

completes : complete unmarshal accumulator ≡ ok calls
unfolding complete add decode_tool_arguments trim_space
completes = refl

complete-IsComplete_example :
    IsComplete unmarshal accumulator (sort ltb_ℤ (indexes accumulator)) calls
    × IsSorted ltb_ℤ (sort ltb_ℤ (indexes accumulator))
complete-IsComplete_example = complete-IsComplete unmarshal accumulator calls completes

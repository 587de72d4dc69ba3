-- ===== src/OpenAi/ToolCalls.antt =====
-- pkg/ai/llm/openai/stream_tool_call.go. The accumulator is owned by one goroutine; its map of buffers
-- is a dictionary by index. json.Unmarshal is a parameter.
pub mod Buffers
pub mod Completion
pub mod Tests
use ash_jazz_ai_agent.Prelude.{
  ℕ, ◌+◌, String, Bool, true, false, ◌&&◌, List, [], ◌∷◌, map, Option, none, some, ◌≡◌, ◌↔◌, arith,
  if◌then◌else◌,
}
use ash_jazz_ai_agent.Prelude.Decimal.{decimal, int_text}
use ash_jazz_ai_agent.Prelude.Dict.{Dict, Comparable, lookup, insert}
use ash_jazz_ai_agent.Prelude.Int.{ℤ, pos, negsuc, leb_ℤ, ltb_ℤ, eq_of_parts}
use ash_jazz_ai_agent.Prelude.Sort.{sort}
use ash_jazz_ai_agent.Prelude.Text.{is_empty, is_blank, trim_space, append}
use ash_jazz_ai_agent.Errors.{Error, wrapf, Result, ok, err}
use ash_jazz_ai_agent.Json.{Map, no_field}
use ash_jazz_ai_agent.Llm.{ToolCall}

pub record ToolFunctionDelta : Type 0 where
  pub name : String
  pub arguments : String

pub record ToolCallDelta : Type 0 where
  pub index : ℤ
  pub id : String
  pub delta_type : String
  pub function : ToolFunctionDelta

pub record ToolCallBuffer : Type 0 where
  pub id : String
  pub name : String
  pub arguments : String

abbrev pub same_index : ℤ → ℤ → Bool
same_index i j = leb_ℤ i j && leb_ℤ j i

pub same_index_iff : (i j : ℤ) → (same_index i j ≡ true) ↔ (i ≡ j)
same_index_iff i j = ground (arith, eq_of_parts i j)

instance abbrev pub index_key : Comparable ℤ
index_key = record { agree = same_index; agree_iff = same_index_iff }

abbrev pub Accumulator : Type 0
Accumulator = Dict ℤ ToolCallBuffer

abbrev pub new_tool_call_accumulator : Accumulator
new_tool_call_accumulator = []

abbrev pub empty_buffer : ToolCallBuffer
empty_buffer = record { id = ""; name = ""; arguments = "" }

abbrev pub or_empty : Option ToolCallBuffer → ToolCallBuffer
or_empty none = empty_buffer
or_empty (some b) = b

abbrev pub write : ToolCallBuffer → ToolCallDelta → ToolCallBuffer
write b d = record {
  id = if is_empty d.id then b.id else d.id;
  name = append b.name d.function.name;
  arguments = append b.arguments d.function.arguments;
}

unfoldable pub add : List ToolCallDelta → Accumulator → Accumulator
unfolding lookup insert
add [] a = a
add (d ∷ ds) a = add ds (insert d.index (write (or_empty (lookup d.index a)) d) a)

abbrev pub has_pending : Accumulator → Bool
has_pending [] = false
has_pending (entry ∷ a) = true

abbrev pub indexes : Accumulator → List ℤ
indexes a = map (λ entry. entry.0) a

module _ (unmarshal : String → Result Map) where
  -- decodeToolArguments of provider.go: blank arguments are an empty map.
  unfoldable pub decode_tool_arguments : String → Result Map
  decode_tool_arguments raw =
      if is_blank raw then ok (some no_field) else unmarshal (trim_space raw)

  abbrev undecoded : ToolCallBuffer → ℤ → Error → Error
  undecoded b index e =
      wrapf "decode openai streaming tool call %q at index %d arguments: %w"
        (b.id ∷ int_text index ∷ []) e

  abbrev pub decoded : ToolCallBuffer → ℤ → Result Map → Result ToolCall
  decoded b index (err e) = err (undecoded b index e)
  decoded b index (ok arguments) = ok (record { id = b.id; name = b.name; arguments = arguments })

  abbrev pub complete_one : ℤ → ToolCallBuffer → Result ToolCall
  complete_one index b = decoded b index (decode_tool_arguments b.arguments)

  abbrev pub cons_call : Result ToolCall → Result (List ToolCall) → Result (List ToolCall)
  cons_call (err e) rest = err e
  cons_call (ok call) (err e) = err e
  cons_call (ok call) (ok calls) = ok (call ∷ calls)

  -- `a.calls[index]` for each index in turn. The indexes are keys, so that no buffer is missing.
  unfoldable pub complete_all : Accumulator → List ℤ → Result (List ToolCall)
  unfolding lookup decimal decode_tool_arguments
  complete_all a [] = ok []
  complete_all a (index ∷ indexes) =
      let rest = complete_all a indexes in
      elim (lookup index a) [ none ↦ rest | some b ↦ cons_call (complete_one index b) rest ]

  unfoldable pub complete : Accumulator → Result (List ToolCall)
  unfolding complete_all sort
  complete a = complete_all a (sort ltb_ℤ (indexes a))

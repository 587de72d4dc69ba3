-- ===== src/OpenAi/ToolCalls/Buffers.antt =====
-- What the accumulator holds: for each index its own fragments, put together in their order.
use ash_jazz_ai_agent.Prelude.{String, List, [], ◌∷◌, ◌≡◌, refl, sym, ap, arith, if◌then◌else◌}
use ash_jazz_ai_agent.Prelude.Dict.{lookup, insert, lookup-insert}
use ash_jazz_ai_agent.Prelude.Int.{ℤ}
use ash_jazz_ai_agent.Prelude.Text.{is_empty, append}
use ash_jazz_ai_agent.OpenAi.ToolCalls.{
  ToolCallDelta, ToolCallBuffer, Accumulator, same_index, same_index_iff, index_key, or_empty,
  write, add,
}

-- The fragments of one index.
unfoldable pub own : ℤ → List ToolCallDelta → List ToolCallDelta
own i [] = []
own i (d ∷ ds) = let rest = own i ds in if same_index d.index i then d ∷ rest else rest

abbrev pub names : List ToolCallDelta → String
names [] = ""
names (d ∷ ds) = append d.function.name (names ds)

abbrev pub arguments : List ToolCallDelta → String
arguments [] = ""
arguments (d ∷ ds) = append d.function.arguments (arguments ds)

-- The last identifier that is not empty, or the old one.
abbrev pub last_id : String → List ToolCallDelta → String
last_id old [] = old
last_id old (d ∷ ds) = last_id (if is_empty d.id then old else d.id) ds

append_empty : (a : String) → append a "" ≡ a
append_empty String.[] = refl
append_empty (String.◌∷◌ c s) = ap (String.◌∷◌ c) (append_empty s)

append_assoc : (a b c : String) → append (append a b) c ≡ append a (append b c)
append_assoc String.[] b c = refl
append_assoc (String.◌∷◌ x s) b c = ap (String.◌∷◌ x) (append_assoc s b c)

-- A buffer after fragments of its own.
abbrev pub IsWritten : ToolCallBuffer → List ToolCallDelta → ToolCallBuffer → Type 0
IsWritten old ds b =
    (b.id ≡ last_id old.id ds)
    × (b.name ≡ append old.name (names ds))
    × (b.arguments ≡ append old.arguments (arguments ds))

-- However the fragments of the tool calls interleave and however they are cut, after Add each index
-- holds its own: the last identifier given, and the names and arguments behind what it held, in the
-- order in which they came.
pub add-IsWritten :
    (i : ℤ) (ds : List ToolCallDelta) (a : Accumulator)
    → IsWritten (or_empty (lookup i a)) (own i ds) (or_empty (lookup i (add ds a)))
unfolding add own
add-IsWritten i [] a =
    let b = or_empty (lookup i a) in
    (refl, sym (append_empty b.name), sym (append_empty b.arguments))
add-IsWritten i (d ∷ ds) a =
    let written = write (or_empty (lookup d.index a)) d in
    let old = or_empty (lookup d.index a) in
    ground (
      arith,
      add-IsWritten i ds (insert d.index written a),
      lookup-insert d.index i written a,
      same_index_iff d.index i,
      append_assoc old.name d.function.name (names (own i ds)),
      append_assoc old.arguments d.function.arguments (arguments (own i ds)),
    )

-- ===== src/OpenAi/ToolCalls/Completion.antt =====
-- What Complete returns: an error, or a call for every index that has a buffer, by ascending index.
use mathlib.Core.List.Permᴰ
use ash_jazz_ai_agent.Prelude.{
  String, List, [], ◌∷◌, none, some, ◌≡◌, ◌≢◌, refl, subst, arith, All, Option-cases, inl, inr,
}
use ash_jazz_ai_agent.Prelude.Dict.{lookup, ≟_refl}
use ash_jazz_ai_agent.Prelude.Int.{ℤ, ltb_ℤ}
use ash_jazz_ai_agent.Prelude.Sort.{IsWeakOrder, IsSorted, sort, sort-perm, sort-IsSorted, All-perm}
use ash_jazz_ai_agent.Errors.{Result, ok, err}
use ash_jazz_ai_agent.Json.{Map}
use ash_jazz_ai_agent.Llm.{ToolCall}
use ash_jazz_ai_agent.OpenAi.ToolCalls.{
  ToolCallBuffer, Accumulator, index_key, decode_tool_arguments, complete_all, indexes, complete,
  cons_call, decoded,
}

-- Every integer can be ordered.
abbrev IsAny : ℤ → Type 0
IsAny i = Unit {0}

All-IsAny : (is : List ℤ) → All IsAny is
All-IsAny [] = tt
All-IsAny (i ∷ is) = (tt, All-IsAny is)

ltb_ℤ-IsWeakOrder : IsWeakOrder IsAny ltb_ℤ
ltb_ℤ-IsWeakOrder = record {
  asym = λ a b _ _ h. ground arith;
  cotrans = λ a b c _ _ _ h k. ground arith;
}

abbrev IsHeld : Accumulator → ℤ → Type 0
IsHeld a i = lookup i a ≢ none

IsHeld-cons :
    (entry : ℤ × ToolCallBuffer) (a : Accumulator) (is : List ℤ)
    → All (IsHeld a) is
    → All (IsHeld (entry ∷ a)) is
unfolding lookup
IsHeld-cons entry a [] h = tt
IsHeld-cons entry a (i ∷ is) h = ground (arith, IsHeld-cons entry a is h.1)

indexes-IsHeld : (a : Accumulator) → All (IsHeld a) (indexes a)
unfolding lookup
indexes-IsHeld [] = tt
indexes-IsHeld (entry ∷ a) =
    ground (arith, ≟_refl entry.0, IsHeld-cons entry a (indexes a) (indexes-IsHeld a))

module _ (unmarshal : String → Result Map) (a : Accumulator) where
  -- Each index in turn has a call, with the identifier and the name of its buffer and its arguments
  -- decoded.
  abbrev pub IsComplete : List ℤ → List ToolCall → Type 0
  IsComplete [] [] = Unit {0}
  IsComplete (i ∷ is) (call ∷ calls) =
      ((b : ToolCallBuffer) × (lookup i a ≡ some b)
        × (call.id ≡ b.id)
        × (call.name ≡ b.name)
        × (decode_tool_arguments unmarshal b.arguments ≡ ok call.arguments))
      × IsComplete is calls
  IsComplete _ _ = ⊥

  abbrev IsCompleteResult : List ℤ → Result (List ToolCall) → Type 0
  IsCompleteResult is (err e) = Unit {0}
  IsCompleteResult is (ok calls) = IsComplete is calls

  cons_call-IsComplete :
      (i : ℤ) (b : ToolCallBuffer) (is : List ℤ) (made : Result Map) (rest : Result (List ToolCall))
      → lookup i a ≡ some b
      → decode_tool_arguments unmarshal b.arguments ≡ made
      → IsCompleteResult is rest
      → IsCompleteResult (i ∷ is) (cons_call unmarshal (decoded unmarshal b i made) rest)
  cons_call-IsComplete i b is (err x) rest e d r = tt
  cons_call-IsComplete i b is (ok arguments) (err x) e d r = tt
  cons_call-IsComplete i b is (ok arguments) (ok calls) e d r = ((b, e, refl, refl, d), r)

  complete_all-IsComplete :
      (is : List ℤ) → All (IsHeld a) is → IsCompleteResult is (complete_all unmarshal a is)
  unfolding complete_all
  complete_all-IsComplete [] h = tt
  complete_all-IsComplete (i ∷ is) h = elim (Option-cases (lookup i a)) [
    | inl e ↦ elim (h.0 e) [ ]
    | inr (b, e) ↦
        let made = decode_tool_arguments unmarshal b.arguments in
        let rest = complete_all-IsComplete is h.1 in
        rw (e, IsCompleteResult, complete_all)
          (cons_call-IsComplete i b is made (complete_all unmarshal a is) e refl rest)
  ]

  -- When Complete returns calls they are whole: every index that has a buffer has one, by ascending
  -- index, with the identifier and the name of the buffer and its arguments decoded.
  pub complete-IsComplete :
      (calls : List ToolCall)
      → complete unmarshal a ≡ ok calls
      → IsComplete (sort ltb_ℤ (indexes a)) calls × IsSorted ltb_ℤ (sort ltb_ℤ (indexes a))
  unfolding complete
  complete-IsComplete calls made =
      let is = sort ltb_ℤ (indexes a) in
      let held =
        All-perm (IsHeld a) (Permᴰ.symm (sort-perm ltb_ℤ (indexes a))) (indexes-IsHeld a) in
      (
        subst (IsCompleteResult is) made (complete_all-IsComplete is held),
        sort-IsSorted ltb_ℤ ltb_ℤ-IsWeakOrder (indexes a) (All-IsAny (indexes a)),
      )

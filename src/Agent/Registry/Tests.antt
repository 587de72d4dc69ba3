-- ===== src/Agent/Registry/Tests.antt =====
-- Runs of the registry over a world that counts, with tools whose schema changes with it.

use ash_jazz_ai_agent.Prelude.{ℕ, zero, String, [], ◌∷◌, map, none, some, ◌≡◌, refl, suc}
use ash_jazz_ai_agent.Prelude.Dict.{text_key}
use ash_jazz_ai_agent.Prelude.Text.{trim_space}
use ash_jazz_ai_agent.Prelude.TextOrder.{less_text}
use ash_jazz_ai_agent.Json
use ash_jazz_ai_agent.Json.{Value, Fields, Map, clone_map}
use ash_jazz_ai_agent.Llm
use ash_jazz_ai_agent.Agent.Tool.{Tool}
use ash_jazz_ai_agent.Agent.Registry.{Registry, new_registry, register, llm_tools}
use ash_jazz_ai_agent.Agent.Registry.Soundness.{IsSound, new_registry-IsSound, register-IsSound}

abbrev schema : String → Map
schema note = some (
    Fields.field "type" (Value.text "object") (
      Fields.field "properties" (Value.object Fields.no_field)
        (Fields.field "note" (Value.text note) Fields.no_field)))

abbrev noted : ℕ → String
noted zero = "early"
noted (suc w) = "late"

abbrev tool_named : String → Tool ℕ
tool_named name = record {
  name = λ _. name;
  description = λ _. "a tool";
  parameters = λ w. schema (noted w);
  invoke = λ deadline args w. (suc w, name, none);
}

abbrev one : Registry ℕ
one = (register (some (tool_named " b ")) 0 new_registry).0

abbrev two : Registry ℕ
two = (register (some (tool_named "a")) 0 one).0

two-IsSound : IsSound two
two-IsSound =
    register-IsSound one 0
      (register-IsSound new_registry 0 (new_registry-IsSound ℕ) (some (tool_named " b ")))
      (some (tool_named "a"))

untaken : (register (some (tool_named "a")) 0 one).1 ≡ none
unfolding register trim_space Json.get
untaken = refl

register-IsSound_example : IsSound (register (some (tool_named "c")) 5 two).0
register-IsSound_example = register-IsSound two 5 two-IsSound (some (tool_named "c"))

abbrev swapped : Registry ℕ
swapped =
    (register (some (tool_named " b ")) 0 (register (some (tool_named "a")) 0 new_registry).0).0

sent_names : map (λ (t : Llm.Tool). t.name) (llm_tools two 0) ≡ "a" ∷ "b" ∷ []
unfolding llm_tools register trim_space Json.get less_text
sent_names = refl

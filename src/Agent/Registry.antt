-- ===== src/Agent/Registry.antt =====
-- pkg/ai/agent/registry.go. The lock makes each operation atomic; it is a function here.
pub mod Contract
pub mod Soundness
pub mod Listing
pub mod Tests
use ash_jazz_ai_agent.Prelude.{
  String, Bool, true, false, List, [], ◌∷◌, map, Option, none, some, if◌then◌else◌,
}
use ash_jazz_ai_agent.Prelude.Dict.{Dict, lookup, insert, text_key}
use ash_jazz_ai_agent.Prelude.Sort.{sort}
use ash_jazz_ai_agent.Prelude.Text.{trim_space, is_empty}
use ash_jazz_ai_agent.Prelude.TextOrder.{less_text}
use ash_jazz_ai_agent.Errors.{Error, errorf, Result, ok, err}
use ash_jazz_ai_agent.Json.{Value, Map, get_map, is_text, clone_map}
use ash_jazz_ai_agent.Llm
use ash_jazz_ai_agent.Agent.Tool.{Tool}

pub record RegisteredTool (W : Type 0) : Type 0 where
  pub tool : Tool W
  pub name : String
  pub parameters : Map

pub record Registry (W : Type 0) : Type 0 where
  pub tools : Dict String (RegisteredTool W)

-- `properties, ok := parameters["properties"].(map[string]any); ok && properties != nil`
abbrev pub has_properties : Option Value → Bool
has_properties (some (Value.object f)) = true
has_properties _ = false

abbrev validate_schema : String → Map → Result (String × Map)
validate_schema name none = err (errorf "agent tool %q parameters schema is required" (name ∷ []))
validate_schema name (some parameters) =
    if is_text "object" (get_map "type" (some parameters))
    then (if has_properties (get_map "properties" (some parameters))
        then ok (name, some parameters)
        else err (errorf "agent tool %q parameters schema properties are required" (name ∷ [])))
    else err (errorf "agent tool %q parameters schema must be object" (name ∷ []))

module _ {W : Type 0} where
  abbrev pub new_registry : Registry W
  new_registry = record { tools = [] }

  unfoldable pub validate_tool_registration : Option (Tool W) → W → Result (String × Map)
  validate_tool_registration none w = err (errorf "agent tool is required" [])
  validate_tool_registration (some tool) w =
      let name = trim_space (tool.name w) in
      if is_empty name
      then err (errorf "agent tool name is required" [])
      else validate_schema name (tool.parameters w)

  abbrev register_named : Tool W → Result (String × Map) → Registry W → Registry W × Option Error
  register_named tool (err e) r = (r, some e)
  register_named tool (ok (name, parameters)) r = elim (lookup name r.tools) [
    | some _ ↦ (r, some (errorf "agent tool %q already registered" (name ∷ [])))
    | none ↦
        let entry : RegisteredTool W = record {
          tool = tool;
          name = name;
          parameters = clone_map parameters;
        } in
        (record { tools = insert name entry r.tools }, none)
  ]

  -- A nil tool fails validation, and is not looked at again.
  unfoldable pub register : Option (Tool W) → W → Registry W → Registry W × Option Error
  unfolding lookup insert validate_tool_registration
  register none w r = (r, some (errorf "agent tool is required" []))
  register (some tool) w r = register_named tool (validate_tool_registration (some tool) w) r

  -- registeredTool.clone
  abbrev pub clone : RegisteredTool W → RegisteredTool W
  clone t = record { tool = t.tool; name = t.name; parameters = clone_map t.parameters }

  abbrev found : String → Option (RegisteredTool W) → Result (RegisteredTool W)
  found name none = err (errorf "unknown tool %q" (name ∷ []))
  found name (some t) = ok (clone t)

  unfoldable pub get : Registry W → String → Result (RegisteredTool W)
  unfolding lookup
  get r name =
      let normalized_name = trim_space name in
      found normalized_name (lookup normalized_name r.tools)

  -- What the registered tool's methods return.
  abbrev pub declaration : W → RegisteredTool W → Llm.Tool
  declaration w t = record {
    name = t.name;
    description = t.tool.description w;
    parameters = clone_map t.parameters;
    strict = true;
  }

  -- `r.tools[name]` for each name in turn. The names are keys, so that no entry is missing.
  unfoldable pub declare_all : W → Dict String (RegisteredTool W) → List String → List Llm.Tool
  unfolding lookup
  declare_all w tools [] = []
  declare_all w tools (name ∷ names) =
      let rest = declare_all w tools names in
      elim (lookup name tools) [ none ↦ rest | some t ↦ declaration w t ∷ rest ]

  abbrev pub names : Registry W → List String
  names r = map (λ entry. entry.0) r.tools

  unfoldable pub llm_tools : Registry W → W → List Llm.Tool
  unfolding declare_all sort
  llm_tools r w = declare_all w r.tools (sort less_text (names r))

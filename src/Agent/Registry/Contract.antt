-- ===== src/Agent/Registry/Contract.antt =====
-- What the registry promises: a tool is refused with no effect, or found afterwards under its name
-- with the schema of the moment it was registered.
use ash_jazz_ai_agent.Prelude.{
  String, Bool, true, false, not, ◌&&◌, Option, none, some, ◌≡◌, if◌then◌else◌, arith,
}
use ash_jazz_ai_agent.Prelude.Dict.{lookup, text_key, lookup-insert, ◌≟◌}
use ash_jazz_ai_agent.Prelude.Text.{trim_space, is_blank}
use ash_jazz_ai_agent.Errors.{Error, ok}
use ash_jazz_ai_agent.Json.{Map, get_map, is_text, clone_map}
use ash_jazz_ai_agent.Agent.Tool.{Tool}
use ash_jazz_ai_agent.Agent.Registry.{RegisteredTool, Registry, register, get, has_properties}

abbrev pub is_none {ℓ} : {A : Type ℓ} → Option A → Bool
is_none none = true
is_none (some a) = false

-- A schema that describes an object and its properties.
abbrev pub is_object_schema : Map → Bool
is_object_schema parameters =
    is_text "object" (get_map "type" parameters) && has_properties (get_map "properties" parameters)

module _ {W : Type 0} (tool : Tool W) (w : W) (r : Registry W) where
  -- A tool is registered exactly when its name is not blank, its schema describes an object with
  -- properties, and no tool has its trimmed name.
  pub register-accepts : is_none (register (some tool) w r).1 ≡ (
      not (is_blank (tool.name w))
      && (is_object_schema (tool.parameters w)
          && is_none (lookup (trim_space (tool.name w)) r.tools)))
  unfolding register
  register-accepts = ground arith

  -- A tool that is refused leaves the registry as it was.
  pub register-refuses :
      (e : Error) → (register (some tool) w r).1 ≡ some e → (register (some tool) w r).0 ≡ r
  unfolding register
  register-refuses e h = ground arith

  -- After a successful registration every name finds what it found before, but the names that trim to
  -- the tool's: they find the tool, with a copy of the schema it had at that moment.
  pub register-get :
      (wanted : String)
      → (register (some tool) w r).1 ≡ none
      → let name = trim_space (tool.name w) in
        get (register (some tool) w r).0 wanted ≡ (
          if name ≟ trim_space wanted
          then ok (record {
            tool = tool;
            name = name;
            parameters = clone_map (clone_map (tool.parameters w));
          })
          else get r wanted)
  unfolding register get
  register-get wanted h =
      let name = trim_space (tool.name w) in
      let entry : RegisteredTool W = record {
        tool = tool;
        name = name;
        parameters = clone_map (tool.parameters w);
      } in
      ground (arith, lookup-insert name (trim_space wanted) entry r.tools)

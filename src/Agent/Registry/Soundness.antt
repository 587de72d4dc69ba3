-- ===== src/Agent/Registry/Soundness.antt =====
-- What holds of a registry whatever is registered: its entries stand under distinct names, and their
-- schemas describe objects.
use mathlib.Core.Option
use ash_jazz_ai_agent.Prelude.{
  String, true, false, List, [], ◌∷◌, map, Option, none, some, ◌≡◌, ◌≢◌, refl, arith, All,
}
use ash_jazz_ai_agent.Prelude.Dict.{Dict, lookup, insert, text_key}
use ash_jazz_ai_agent.Prelude.Sort.{Apart, AllApart}
use ash_jazz_ai_agent.Prelude.Text.{trim_space, is_empty, text_beq_iff}
use ash_jazz_ai_agent.Prelude.TextOrder.{less_text, less_text-Apart}
use ash_jazz_ai_agent.Json.{
  Value, null, boolean, number, text, texts, nil_texts, items, nil_items, object, nil_object, Map,
  is_text, clone_map, clone_value, get,
}
use ash_jazz_ai_agent.Json.Laws.{get-clone_fields}
use ash_jazz_ai_agent.Agent.Tool.{Tool}
use ash_jazz_ai_agent.Agent.Registry.{
  RegisteredTool, Registry, register, names, has_properties, new_registry,
}
use ash_jazz_ai_agent.Agent.Registry.Contract.{is_object_schema}

-- An entry stands under the name of its tool, which is not empty, and describes an object.
abbrev pub IsEntry : {W : Type 0} → String × RegisteredTool W → Type 0
IsEntry (key, t) = (key ≡ t.name) × (is_empty key ≡ false) × (is_object_schema t.parameters ≡ true)

-- Each entry is one, and no two have the same key.
abbrev pub IsSound : {W : Type 0} → Registry W → Type 0
IsSound r = All IsEntry r.tools × AllApart less_text (names r)

-- A copied schema passes the tests that its original passes.
tests-clone_value :
    (s : String) (o : Option Value)
    → (is_text s (Option.map clone_value o) ≡ is_text s o)
      × (has_properties (Option.map clone_value o) ≡ has_properties o)
unfolding clone_value
tests-clone_value s none = (refl, refl)
tests-clone_value s (some null) = (refl, refl)
tests-clone_value s (some (boolean b)) = (refl, refl)
tests-clone_value s (some (number n)) = (refl, refl)
tests-clone_value s (some (text t)) = (refl, refl)
tests-clone_value s (some (texts [])) = (refl, refl)
tests-clone_value s (some (texts (t ∷ ts))) = (refl, refl)
tests-clone_value s (some nil_texts) = (refl, refl)
tests-clone_value s (some (items xs)) = (refl, refl)
tests-clone_value s (some nil_items) = (refl, refl)
tests-clone_value s (some (object f)) = (refl, refl)
tests-clone_value s (some nil_object) = (refl, refl)

is_object_schema-clone : (m : Map) → is_object_schema (clone_map m) ≡ is_object_schema m
is_object_schema-clone none = refl
is_object_schema-clone (some f) = rw (get-clone_fields "type" f) (
    rw (get-clone_fields "properties" f) (
      rw ((tests-clone_value "object" (get "type" f)).0)
        (rw ((tests-clone_value "" (get "properties" f)).1))))

-- The key of an entry that a missing key does not find is another one.
lookup_missing-Apart :
    {V : Type 0} (key held : String) (v : V) (d : Dict String V)
    → lookup key ((held, v) ∷ d) ≡ none
    → (held ≢ key) × (lookup key d ≡ none)
unfolding lookup
lookup_missing-Apart key held v d free = ground (arith, text_beq_iff held key)

module _ {W : Type 0} where
  abbrev keys : Dict String (RegisteredTool W) → List String
  keys d = map (λ entry. entry.0) d

  insert-All :
      (key : String) (t : RegisteredTool W) (d : Dict String (RegisteredTool W))
      → IsEntry (key, t)
      → All IsEntry d
      → All IsEntry (insert key t d)
  unfolding insert
  insert-All key t [] e h = (e, tt)
  insert-All key t (entry ∷ rest) e h = ground (arith, insert-All key t rest e)

  insert-Apart :
      (j key : String) (t : RegisteredTool W) (d : Dict String (RegisteredTool W))
      → Apart less_text j key
      → All (Apart less_text j) (keys d)
      → All (Apart less_text j) (keys (insert key t d))
  unfolding insert
  insert-Apart j key t [] e h = (e, tt)
  insert-Apart j key t (entry ∷ rest) e h = ground (arith, insert-Apart j key t rest e)

  insert-AllApart :
      (key : String) (t : RegisteredTool W) (d : Dict String (RegisteredTool W))
      → lookup key d ≡ none
      → AllApart less_text (keys d)
      → AllApart less_text (keys (insert key t d))
  unfolding insert lookup
  insert-AllApart key t [] free h = (tt, tt)
  insert-AllApart key t ((held, u) ∷ rest) free h =
      let (other, later) = lookup_missing-Apart key held u rest free in
      ground (
        arith,
        text_beq_iff held key,
        insert-Apart held key t rest (less_text-Apart held key other) h.0,
        insert-AllApart key t rest later h.1,
      )

-- A registry that holds nothing is sound.
pub new_registry-IsSound : (W : Type 0) → IsSound (new_registry {W = W})
new_registry-IsSound W = (tt, tt)

module _ {W : Type 0} (r : Registry W) (w : W) (sound : IsSound r) where
  -- Registering a tool, with success or not, keeps a registry sound: each tool stands under its own
  -- name, that name is not empty and no other tool's, and its schema describes an object.
  pub register-IsSound : (tool : Option (Tool W)) → IsSound (register tool w r).0
  unfolding register
  register-IsSound none = sound
  register-IsSound (some tool) =
      let name = trim_space (tool.name w) in
      let entry : RegisteredTool W = record {
        tool = tool;
        name = name;
        parameters = clone_map (tool.parameters w);
      } in
      ground (
        arith,
        is_object_schema-clone (tool.parameters w),
        insert-All name entry r.tools,
        insert-AllApart name entry r.tools,
      )

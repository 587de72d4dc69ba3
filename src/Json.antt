-- ===== src/Json.antt =====
-- The values of map[string]any that tools, metadata and model messages carry, with reflect.DeepEqual
-- and the deep copy that pkg/ai/agent (cloneMap, cloneSchema) and pkg/ai/vectordb (cloneMetadata) each
-- define.
pub mod Copies
pub mod Laws
use ash_jazz_ai_agent.Prelude.{
  ℕ, suc, String, Bool, true, false, ◌&&◌, List, [], ◌∷◌, Option, none, some, ◌≡◌, ◌==◌,
  if◌then◌else◌,
}
use ash_jazz_ai_agent.Prelude.Text.{text_beq}
pub use ash_jazz_ai_agent.Prelude.Float.{Float64}
use ash_jazz_ai_agent.Prelude.Float.{equal}

-- The dynamic types that the code tells apart, and JSON's scalars. Slices and maps may be nil.
mutual
  pub data Value : Type 0 where
    null : Value
    boolean : Bool → Value
    number : Float64 → Value
    text : String → Value
    texts : List String → Value
    nil_texts : Value
    items : Items → Value
    nil_items : Value
    object : Fields → Value
    nil_object : Value

  pub data Items : Type 0 where
    no_item : Items
    item : Value → Items → Items

  -- The entries of a map, each key at most once.
  pub data Fields : Type 0 where
    no_field : Fields
    field : String → Value → Fields → Fields

-- A map[string]any, which may be nil.
abbrev pub Map : Type 0
Map = Option Fields

-- `m[key]`
unfoldable pub get : String → Fields → Option Value
get k no_field = none
get k (field j v f) = if text_beq j k then some v else get k f

abbrev pub get_map : String → Map → Option Value
get_map k none = none
get_map k (some f) = get k f

-- `value == s`, for an interface value and a string
abbrev pub is_text : String → Option Value → Bool
is_text s (some (text t)) = text_beq t s
is_text s _ = false

-- `m[key] = v`
unfoldable pub put : String → Value → Fields → Fields
put k v no_field = field k v no_field
put k v (field j w f) = if text_beq j k then field k v f else field j w (put k v f)

-- `delete(m, key)`
unfoldable pub remove : String → Fields → Fields
remove k no_field = no_field
remove k (field j w f) = let rest = remove k f in if text_beq j k then rest else field j w rest

pub count_fields : Fields → ℕ
count_fields no_field = 0
count_fields (field k v f) = suc (count_fields f)

-- `append([]string(nil), s...)`, which is nil for a slice with no item.
clone_texts : List String → Value
clone_texts [] = nil_texts
clone_texts (s ∷ ss) = texts (s ∷ ss)

unfoldable mutual
  unfolding clone_texts

  pub clone_value : Value → Value
  clone_value null = null
  clone_value (boolean b) = boolean b
  clone_value (number n) = number n
  clone_value (text s) = text s
  clone_value (texts ss) = clone_texts ss
  clone_value nil_texts = nil_texts
  clone_value (items xs) = items (clone_items xs)
  clone_value nil_items = items no_item
  clone_value (object f) = object (clone_fields f)
  clone_value nil_object = nil_object

  pub clone_items : Items → Items
  clone_items no_item = no_item
  clone_items (item x xs) = item (clone_value x) (clone_items xs)

  pub clone_fields : Fields → Fields
  clone_fields no_field = no_field
  clone_fields (field k v f) = field k (clone_value v) (clone_fields f)

-- cloneMap and cloneSchema
abbrev pub clone_map : Map → Map
clone_map none = none
clone_map (some f) = some (clone_fields f)

equal_texts : List String → List String → Bool
equal_texts [] [] = true
equal_texts (s ∷ ss) (t ∷ ts) = text_beq s t && equal_texts ss ts
equal_texts _ _ = false

abbrev bool_beq : Bool → Bool → Bool
bool_beq true true = true
bool_beq false false = true
bool_beq _ _ = false

-- What reflect.DeepEqual finds between two values; maps are compared key by key.
unfoldable mutual
  unfolding equal_texts count_fields get equal

  pub deep_equal : Value → Value → Bool
  deep_equal null null = true
  deep_equal (boolean a) (boolean b) = bool_beq a b
  deep_equal (number m) (number n) = equal m n
  deep_equal (text s) (text t) = text_beq s t
  deep_equal (texts ss) (texts ts) = equal_texts ss ts
  deep_equal nil_texts nil_texts = true
  deep_equal (items xs) (items ys) = equal_items xs ys
  deep_equal nil_items nil_items = true
  deep_equal (object f) (object g) = count_fields f == count_fields g && has_fields f g
  deep_equal nil_object nil_object = true
  deep_equal _ _ = false

  pub equal_items : Items → Items → Bool
  equal_items no_item no_item = true
  equal_items (item x xs) (item y ys) = deep_equal x y && equal_items xs ys
  equal_items _ _ = false

  -- Each entry of the first map has an equal one in the second.
  pub has_fields : Fields → Fields → Bool
  has_fields no_field g = true
  has_fields (field k v f) g =
      elim (get k g) [ none ↦ false | some w ↦ deep_equal v w ] && has_fields f g

-- reflect.DeepEqual of two map[string]any.
abbrev pub deep_equal_map : Map → Map → Bool
deep_equal_map none none = true
deep_equal_map (some f) (some g) = deep_equal (object f) (object g)
deep_equal_map _ _ = false

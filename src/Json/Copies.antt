-- ===== src/Json/Copies.antt =====
-- Which values a deep copy leaves as they are.
use ash_jazz_ai_agent.Prelude.{
  Bool, true, false, ◌&&◌, [], ◌∷◌, none, some, ◌≡◌, refl, ap, ◌∙◌, arith,
}
use ash_jazz_ai_agent.Json.{
  Value, null, boolean, number, text, texts, nil_texts, items, nil_items, object, nil_object, Items,
  no_item, item, Fields, no_field, field, Map, clone_texts, clone_value, clone_items, clone_fields,
  clone_map,
}

-- No []any in a value is nil, and no []string is empty without being nil.
abbrev mutual
  pub is_copied : Value → Bool
  is_copied (texts []) = false
  is_copied nil_items = false
  is_copied (items xs) = are_copied xs
  is_copied (object f) = fields_copied f
  is_copied _ = true

  pub are_copied : Items → Bool
  are_copied no_item = true
  are_copied (item x xs) = is_copied x && are_copied xs

  pub fields_copied : Fields → Bool
  fields_copied no_field = true
  fields_copied (field k v f) = is_copied v && fields_copied f

abbrev pub map_copied : Map → Bool
map_copied none = true
map_copied (some f) = fields_copied f

both_true : (a b : Bool) → (a && b) ≡ true → (a ≡ true) × (b ≡ true)
both_true a b h = ground (arith, h)

mutual
  unfolding clone_value clone_texts

  clone_same : (v : Value) → is_copied v ≡ true → clone_value v ≡ v
  clone_same null h = refl
  clone_same (boolean b) h = refl
  clone_same (number n) h = refl
  clone_same (text s) h = refl
  clone_same (texts []) h = ground (arith, h)
  clone_same (texts (s ∷ ss)) h = refl
  clone_same nil_texts h = refl
  clone_same (items xs) h = ap items (clone_items_same xs h)
  clone_same nil_items h = ground (arith, h)
  clone_same (object f) h = ap object (clone_fields_same f h)
  clone_same nil_object h = refl

  clone_items_same : (xs : Items) → are_copied xs ≡ true → clone_items xs ≡ xs
  clone_items_same no_item h = refl
  clone_items_same (item x xs) h =
      let (here, behind) = both_true (is_copied x) (are_copied xs) h in
      ap (λ y. item y (clone_items xs)) (clone_same x here)
      ∙ ap (item x) (clone_items_same xs behind)

  clone_fields_same : (f : Fields) → fields_copied f ≡ true → clone_fields f ≡ f
  clone_fields_same no_field h = refl
  clone_fields_same (field k v f) h =
      let (here, behind) = both_true (is_copied v) (fields_copied f) h in
      ap (λ w. field k w (clone_fields f)) (clone_same v here)
      ∙ ap (field k v) (clone_fields_same f behind)

pub clone_map-same : (m : Map) → map_copied m ≡ true → clone_map m ≡ m
clone_map-same none h = refl
clone_map-same (some f) h = ap (λ g. some g) (clone_fields_same f h)

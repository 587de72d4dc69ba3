-- ===== src/Json/Laws.antt =====
-- A deep copy is equal to its original, and reading a copied map reads a copy.
use mathlib.Core.Option
use ash_jazz_ai_agent.Prelude.{
  String, true, false, List, [], ◌∷◌, none, some, ◌≡◌, if◌then◌else◌, refl, arith,
}
use ash_jazz_ai_agent.Prelude.Text.{text_beq, text_beq_iff}
use ash_jazz_ai_agent.Prelude.Float.{is_nan}
use ash_jazz_ai_agent.Json.{
  Value, null, boolean, number, text, texts, nil_texts, items, nil_items, object, nil_object, Items,
  no_item, item, Fields, no_field, field, get, put, remove, count_fields, clone_texts, clone_value,
  clone_items, clone_fields, equal_texts, deep_equal, equal_items, has_fields,
}

-- A value that its copy can equal: no number in it is a NaN, no slice is nil, or empty with a static element type, and
-- the keys of each map are distinct. JSON decoding makes such values.
abbrev mutual
  pub IsPlain : Value → Type 0
  IsPlain (number x) = is_nan x ≡ false
  IsPlain (texts []) = ⊥
  IsPlain (items xs) = IsPlainItems xs
  IsPlain nil_items = ⊥
  IsPlain (object f) = IsPlainFields f
  IsPlain _ = Unit {0}

  pub IsPlainItems : Items → Type 0
  IsPlainItems no_item = Unit {0}
  IsPlainItems (item x xs) = IsPlain x × IsPlainItems xs

  pub IsPlainFields : Fields → Type 0
  IsPlainFields no_field = Unit {0}
  IsPlainFields (field k v f) = (get k f ≡ none) × IsPlain v × IsPlainFields f

equal_texts_refl : (ss : List String) → equal_texts ss ss ≡ true
unfolding equal_texts
equal_texts_refl [] = refl
equal_texts_refl (s ∷ ss) = ground (arith, text_beq_iff s s, equal_texts_refl ss)

count_fields-clone_fields : (f : Fields) → count_fields (clone_fields f) ≡ count_fields f
unfolding count_fields clone_fields
count_fields-clone_fields no_field = refl
count_fields-clone_fields (field k v f) = ground (arith, count_fields-clone_fields f)

-- Each entry of the first map is the one that the second holds under its key.
abbrev AreIn : Fields → Fields → Type 0
AreIn no_field g = Unit {0}
AreIn (field k v f) g = (get k g ≡ some v) × AreIn f g

AreIn-field :
    (f g : Fields) (j : String) (w : Value) → get j f ≡ none → AreIn f g → AreIn f (field j w g)
unfolding get
AreIn-field no_field g j w h a = tt
AreIn-field (field k v f) g j w h a =
    ground (arith, text_beq_iff j k, text_beq_iff k j, AreIn-field f g j w)

AreIn-self : (f : Fields) → IsPlainFields f → AreIn f f
unfolding get
AreIn-self no_field h = tt
AreIn-self (field k v f) h =
    ground (arith, text_beq_iff k k, AreIn-self f h.2, AreIn-field f f k v h.0)

mutual
  unfolding clone_value deep_equal clone_texts

  clone_equal : (v : Value) → IsPlain v → deep_equal (clone_value v) v ≡ true
  clone_equal null h = refl
  clone_equal (boolean true) h = refl
  clone_equal (boolean false) h = refl
  clone_equal (number n) h = ground arith
  clone_equal (text s) h = (text_beq_iff s s).1 refl
  clone_equal (texts []) h = absurd h
  clone_equal (texts (s ∷ ss)) h = equal_texts_refl (s ∷ ss)
  clone_equal nil_texts h = refl
  clone_equal (items xs) h = clone_items_equal xs h
  clone_equal nil_items h = absurd h
  clone_equal (object f) h =
      ground (arith, count_fields-clone_fields f, clone_fields_in f f h (AreIn-self f h))
  clone_equal nil_object h = refl

  clone_items_equal : (xs : Items) → IsPlainItems xs → equal_items (clone_items xs) xs ≡ true
  clone_items_equal no_item h = refl
  clone_items_equal (item x xs) h = ground (arith, clone_equal x h.0, clone_items_equal xs h.1)

  clone_fields_in :
      (f g : Fields) → IsPlainFields f → AreIn f g → has_fields (clone_fields f) g ≡ true
  clone_fields_in no_field g h a = refl
  clone_fields_in (field k v f) g h a =
      ground (arith, clone_equal v h.1, clone_fields_in f g h.2 a.1)

-- The deep copy of a plain value is reflect.DeepEqual to it.
pub clone_value-deep_equal : (v : Value) → IsPlain v → deep_equal (clone_value v) v ≡ true
clone_value-deep_equal v h = clone_equal v h

-- Under each key the copied map holds the copy of what the original holds, and no other key.
pub get-clone_fields :
    (k : String) (f : Fields) → get k (clone_fields f) ≡ Option.map clone_value (get k f)
unfolding get clone_fields
get-clone_fields k no_field = refl
get-clone_fields k (field j v f) = ground (arith, get-clone_fields k f)

pub get-put :
    (k j : String) (v : Value) (f : Fields)
    → get j (put k v f) ≡ (if text_beq k j then some v else get j f)
unfolding get put
get-put k j v no_field = refl
get-put k j v (field i w f) =
    ground (arith, text_beq_iff k j, text_beq_iff i k, text_beq_iff i j, get-put k j v f)

pub get-remove :
    (k j : String) (f : Fields) → get j (remove k f) ≡ (if text_beq k j then none else get j f)
unfolding get remove
get-remove k j no_field = ground arith
get-remove k j (field i w f) =
    ground (arith, text_beq_iff k j, text_beq_iff i k, text_beq_iff i j, get-remove k j f)

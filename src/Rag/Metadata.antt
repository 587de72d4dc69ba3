-- ===== src/Rag/Metadata.antt =====
-- pkg/ai/rag: Document and Chunk of rag.go, and the deep copy cloneMetadata of chunker_recursive.go,
-- which makes an empty map of a nil one.
use ash_jazz_ai_agent.Prelude.{String, List, [], ◌∷◌, none, some}
use ash_jazz_ai_agent.Prelude.Float.{Float64}
use ash_jazz_ai_agent.Json.{
  Value, null, boolean, number, text, texts, nil_texts, items, nil_items, object, nil_object, Items,
  no_item, item, Fields, no_field, field, Map,
}

pub record Document : Type 0 where
  pub id : String
  pub content : String
  pub source : String
  pub doc_type : String
  pub meta : Map

pub record Chunk : Type 0 where
  pub id : String
  pub content : String
  pub parent_id : String
  pub score : Float64
  pub metadata : Map

abbrev clone_texts : List String → Value
clone_texts [] = nil_texts
clone_texts (s ∷ ss) = texts (s ∷ ss)

unfoldable mutual
  pub clone_metadata_value : Value → Value
  clone_metadata_value null = null
  clone_metadata_value (boolean b) = boolean b
  clone_metadata_value (number n) = number n
  clone_metadata_value (text s) = text s
  clone_metadata_value (texts ss) = clone_texts ss
  clone_metadata_value nil_texts = nil_texts
  clone_metadata_value (items xs) = items (clone_metadata_items xs)
  clone_metadata_value nil_items = items no_item
  clone_metadata_value (object f) = object (clone_metadata_fields f)
  clone_metadata_value nil_object = object no_field

  pub clone_metadata_items : Items → Items
  clone_metadata_items no_item = no_item
  clone_metadata_items (item x xs) = item (clone_metadata_value x) (clone_metadata_items xs)

  pub clone_metadata_fields : Fields → Fields
  clone_metadata_fields no_field = no_field
  clone_metadata_fields (field k v f) = field k (clone_metadata_value v) (clone_metadata_fields f)

-- cloneMetadata: the map that it returns is never nil.
abbrev pub clone_metadata : Map → Fields
clone_metadata none = no_field
clone_metadata (some f) = clone_metadata_fields f

-- ===== src/Rag/Chunker/Tests.antt =====
-- A document of five runes in chunks of three that overlap by one.
use ash_jazz_ai_agent.Prelude.{String, false, List, [], ◌∷◌, none, some, ◌≡◌, refl}
use ash_jazz_ai_agent.Prelude.Decimal.{decimal_padded}
use ash_jazz_ai_agent.Prelude.Int.{pos}
use ash_jazz_ai_agent.Prelude.Text.{runes, trim_space, is_blank}
use ash_jazz_ai_agent.Errors.{ok}
use ash_jazz_ai_agent.Json.{Fields, Value, put}
use ash_jazz_ai_agent.Rag.Metadata.{Document, Chunk}
use ash_jazz_ai_agent.Rag.Chunker.{RecursiveChunkerConfig, chunk}
use ash_jazz_ai_agent.Rag.Chunker.Coverage.{joined, size_of, step_of, chunk-joined}

abbrev config : RecursiveChunkerConfig
config = record { chunk_size = pos 3; overlap = pos 1 }

abbrev document : Document
document = record { id = "d"; content = "abcde"; source = "s"; doc_type = ""; meta = none }

abbrev piece : String → String → Chunk
piece id content = record {
  id = id;
  content = content;
  parent_id = "d";
  score = record { bits = 0 };
  metadata = some (Fields.field "source" (Value.text "s") Fields.no_field);
}

abbrev pieces : List Chunk
pieces = piece "d:chunk:0000" "abc" ∷ piece "d:chunk:0001" "cde" ∷ piece "d:chunk:0002" "e" ∷ []

makes_pieces : chunk (λ _. none) config document ≡ ok pieces
unfolding chunk decimal_padded put trim_space
makes_pieces = refl

not_blank : is_blank document.content ≡ false
unfolding trim_space
not_blank = refl

chunk-joined_example :
    joined document (size_of config) (step_of config) (runes document.content) pieces
    ≡ runes document.content
chunk-joined_example = chunk-joined (λ _. none) config document pieces makes_pieces not_blank

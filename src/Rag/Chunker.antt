-- ===== src/Rag/Chunker.antt =====
-- pkg/ai/rag/chunker_recursive.go. A document is cut by runes. estimateChunkCount only sizes the
-- slice beforehand, and has no part in the result.
pub mod Coverage
pub mod Tests
use ash_jazz_ai_agent.Prelude.{
  ℕ, zero, suc, ◌+◌, ◌-◌, String, Bool, true, false, List, [], ◌∷◌, take, drop, length, Option,
  none, some, if◌then◌else◌, ltb, leb,
}
use Prim.Native.Nat.{◌^◌}
use Prim.Native.Char.{Char}
use ash_jazz_ai_agent.Prelude.Decimal.{decimal_padded}
use ash_jazz_ai_agent.Prelude.Float.{Float64}
use ash_jazz_ai_agent.Prelude.Int.{ℤ, pos, pos_part, leb_ℤ, ltb_ℤ, not_positive}
use ash_jazz_ai_agent.Prelude.Text.{is_blank, is_empty, runes, of_runes, append}
use ash_jazz_ai_agent.Errors.{Error, errorf, Result, ok, err}
use ash_jazz_ai_agent.Json.{Fields, text, put}
use ash_jazz_ai_agent.Rag.Metadata.{Document, Chunk, clone_metadata}

pub record RecursiveChunkerConfig : Type 0 where
  pub chunk_size : ℤ
  pub overlap : ℤ

unfoldable pub validate_recursive_config : RecursiveChunkerConfig → Option Error
validate_recursive_config c =
    if not_positive c.chunk_size
    then some (errorf "recursive chunker chunk size must be positive" [])
    else if ltb_ℤ c.overlap (pos 0)
    then some (errorf "recursive chunker overlap must not be negative" [])
    else if leb_ℤ c.chunk_size c.overlap
    then some (errorf "recursive chunker overlap must be smaller than chunk size" [])
    else none

-- `fmt.Sprintf("%s:chunk:%04d", documentID, index)`
unfoldable pub stable_chunk_id : String → ℕ → String
unfolding decimal_padded
stable_chunk_id document_id index = append document_id (append ":chunk:" (decimal_padded 4 index))

abbrev put_text : String → String → Fields → Fields
put_text key value f = if is_empty value then f else put key (text value) f

unfoldable pub chunk_metadata : Document → Fields
unfolding put
chunk_metadata doc =
    put_text "type" doc.doc_type (put_text "source" doc.source (clone_metadata doc.meta))

abbrev pub chunk_of : Document → ℕ → List Char → Chunk
chunk_of doc index window = record {
  id = stable_chunk_id doc.id index;
  content = of_runes window;
  parent_id = doc.id;
  score = record { bits = 0 };
  metadata = some (chunk_metadata doc);
}

-- `start + ChunkSize` is more than an int holds: the sum is negative, and no end of a slice.
abbrev pub overflows : ℕ → ℕ → Bool
overflows start size = leb (2 ^ 63) (start + size)

-- The panic of the slice expression stands as an error.
abbrev slice_panic : Error
slice_panic = errorf "runtime error: slice bounds out of range" []

-- `contentRunes[start:end]`, with the end that the code computes.
abbrev pub window : ℕ → ℕ → List Char → List Char
window size start content_runes =
    let end =
      if ltb (length content_runes) (start + size) then length content_runes else start + size in
    take (end - start) (drop start content_runes)

abbrev cons_chunk : Chunk → Result (List Chunk) → Result (List Chunk)
cons_chunk chunk (err e) = err e
cons_chunk chunk (ok chunks) = ok (chunk ∷ chunks)

-- The loop. Each pass moves the start by a step of at least one, so that as much fuel as there are
-- runes is enough. `cancelled n` is ctx.Err() as it is read in the n-th pass.
unfoldable pub chunk_windows :
    (ℕ → Option Error) → Document → ℕ → ℕ → List Char → ℕ → ℕ → ℕ → Result (List Chunk)
unfolding stable_chunk_id chunk_metadata
chunk_windows cancelled doc size step content_runes zero start index = ok []
chunk_windows cancelled doc size step content_runes (suc fuel) start index =
    let later =
      chunk_windows cancelled doc size step content_runes fuel (start + step) (suc index) in
    if leb (length content_runes) start then ok [] else elim (cancelled (suc index)) [
      | some e ↦ err e
      | none ↦
          if overflows start size
          then err slice_panic
          else cons_chunk (chunk_of doc index (window size start content_runes)) later
    ]

abbrev pub chunk_content :
    (ℕ → Option Error) → RecursiveChunkerConfig → Document → Result (List Chunk)
chunk_content cancelled c doc =
    if is_blank doc.content
    then ok []
    else (let content_runes = runes doc.content in
        let size = pos_part c.chunk_size in
        chunk_windows cancelled doc size (size - pos_part c.overlap) content_runes
          (length content_runes) 0 0)

abbrev pub chunk_valid :
    (ℕ → Option Error)
    → RecursiveChunkerConfig
    → Document
    → Option Error
    → Option Error
    → Result (List Chunk)
chunk_valid cancelled c doc (some e) invalid = err e
chunk_valid cancelled c doc none (some e) = err e
chunk_valid cancelled c doc none none = chunk_content cancelled c doc

-- `Chunk`: a nil list of chunks is an empty one.
unfoldable pub chunk : (ℕ → Option Error) → RecursiveChunkerConfig → Document → Result (List Chunk)
unfolding validate_recursive_config chunk_windows
chunk cancelled c doc = chunk_valid cancelled c doc (cancelled 0) (validate_recursive_config c)

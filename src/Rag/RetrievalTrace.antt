-- ===== src/Rag/RetrievalTrace.antt =====
-- pkg/ai/rag/retriever.go: the chunks made from hits, and the trace that Retrieve records of them.

use ash_jazz_ai_agent.Prelude.{ℕ, String, List, [], ◌∷◌, map, length, Option, none, some}
use ash_jazz_ai_agent.Prelude.Float.{Float64}
use ash_jazz_ai_agent.Prelude.Int.{ℤ, pos, sub_time, milliseconds}
use ash_jazz_ai_agent.Json.{Value, Fields, get, remove}
use ash_jazz_ai_agent.Obs.Identity.{CorrelationIdentity}
use ash_jazz_ai_agent.Obs.Summary.{
  SafeSummary, empty_summary, new_safe_summary, with_summary_hash, with_summary_length,
  with_summary_count, with_summary_status, with_summary_error_class, with_summary_score,
}
use ash_jazz_ai_agent.Obs.Trace.{
  Trace, ObservationType, FailureStatus, failure_text, new_trace, with_correlation_identity,
  with_observation_type, with_query, with_retrieval, with_safe_summaries, with_outcome,
}
use ash_jazz_ai_agent.VectorDb.{Hit}
use ash_jazz_ai_agent.Rag.Metadata.{Chunk, clone_metadata}

abbrev text_of : Option Value → String
text_of (some (Value.text s)) = s
text_of _ = ""

-- stringMetadata
abbrev pub string_metadata : Fields → String → String
string_metadata metadata key = text_of (get key metadata)

-- chunkHitMetadata
abbrev pub chunk_hit_metadata : Fields → Fields
chunk_hit_metadata metadata = remove "parent_id" (remove "content" metadata)

abbrev pub chunk_of_hit : Hit → Chunk
chunk_of_hit hit =
    let metadata = clone_metadata hit.metadata in
    record {
      id = hit.id;
      content = string_metadata metadata "content";
      parent_id = string_metadata metadata "parent_id";
      score = hit.score;
      metadata = some (chunk_hit_metadata metadata);
    }

unfoldable pub chunks_from_hits : List Hit → List Chunk
unfolding get remove
chunks_from_hits hits = map chunk_of_hit hits

abbrev pub top_scores_from_chunks : List Chunk → List Float64
top_scores_from_chunks chunks = map (λ chunk. chunk.score) chunks

abbrev first_score : List Chunk → Option (SafeSummary → SafeSummary)
first_score [] = none
first_score (chunk ∷ chunks) = some (with_summary_score chunk.score)

unfoldable pub retrieval_summary_from_chunks : List Chunk → String → String → SafeSummary
unfolding new_safe_summary
retrieval_summary_from_chunks chunks status error_class = new_safe_summary (
    some (with_summary_count (pos (length chunks)))
    ∷ some (with_summary_status status)
    ∷ some (with_summary_error_class error_class)
    ∷ first_score chunks
    ∷ [])

abbrev by_chunks {ℓ} : {A : Type ℓ} → A → A → List Chunk → A
by_chunks missed found [] = missed
by_chunks missed found (chunk ∷ chunks) = found

unfoldable pub retrieval_trace :
    CorrelationIdentity → String → String → ℤ → List Chunk → ℕ → ℕ → Trace
unfolding new_trace new_safe_summary retrieval_summary_from_chunks
retrieval_trace identity feature query_hash query_len chunks started_at ended_at =
    let failure = by_chunks (failure_text FailureStatus.retrieval_miss) "" chunks in
    let trace = new_trace identity.ai_trace_id feature ended_at (
      some (with_correlation_identity identity)
      ∷ some (with_observation_type ObservationType.retriever)
      ∷ some (with_query query_hash "" query_len)
      ∷ some (
          with_retrieval (pos (length chunks)) "" (top_scores_from_chunks chunks)
            (milliseconds (sub_time ended_at started_at)))
      ∷ some (
          with_safe_summaries
            (new_safe_summary
              (some (with_summary_hash query_hash) ∷ some (with_summary_length query_len) ∷ []))
            empty_summary
            (retrieval_summary_from_chunks chunks (by_chunks "miss" "success" chunks) failure)
            empty_summary)
      ∷ some (with_outcome (by_chunks "failure" "success" chunks))
      ∷ []) in
    record trace { failure_status = failure }

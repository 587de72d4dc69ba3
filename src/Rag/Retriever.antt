-- ===== src/Rag/Retriever.antt =====
-- pkg/ai/rag/retriever.go. The embedder, the store and the tracer act on the world `W`; SHA-256 is a
-- parameter, as the hexadecimal text of its first eight bytes.
pub mod Privacy
pub mod Tests
use Prim.Native.String.{len}
use ash_jazz_ai_agent.Prelude.{
  ℕ, String, Bool, true, false, List, [], ◌∷◌, map, length, Option, none, some, if◌then◌else◌,
}
use ash_jazz_ai_agent.Prelude.Float.{Float32, Float64}
use ash_jazz_ai_agent.Prelude.Int.{ℤ, pos, sub_time, milliseconds, not_positive}
use ash_jazz_ai_agent.Prelude.Text.{is_blank}
use ash_jazz_ai_agent.Errors.{Error, errorf, wrapf, Result, ok, err}
use ash_jazz_ai_agent.Json.{Value, Fields, get, remove, Map}
use ash_jazz_ai_agent.Obs.Identity.{Context, CorrelationIdentity, correlation_identity_from_context}
use ash_jazz_ai_agent.Obs.Summary.{
  SafeSummary, empty_summary, new_safe_summary, with_summary_hash, with_summary_length,
  with_summary_count, with_summary_status, with_summary_error_class, with_summary_score,
}
use ash_jazz_ai_agent.Obs.Trace.{
  Trace, Tracer, ObservationType, FailureStatus, failure_text, new_trace, with_correlation_identity,
  with_observation_type, with_query, with_retrieval, with_safe_summaries, with_outcome,
  record_with_export_failure_protection,
}
use ash_jazz_ai_agent.VectorDb.{Query, Hit}
use ash_jazz_ai_agent.Rag.RetrievalTrace.{chunks_from_hits, retrieval_trace}
use ash_jazz_ai_agent.Rag.Metadata.{Chunk, clone_metadata}

-- rag.Embedder
pub record Embedder (W : Type 0) : Type 0 where
  pub embed : List String → W → W × Result (List (List Float32))

-- The part of vectordb.Store that a retriever calls.
pub record Store (W : Type 0) : Type 0 where
  pub search : Query → W → W × Result (List Hit)

-- The interface values may be nil; NewBasicRetriever sees to it that the clock is not.
pub record BasicRetriever (W : Type 0) : Type 0 where
  pub embedder : Option (Embedder W)
  pub store : Option (Store W)
  pub threshold : Float64
  pub tracer : Option (Tracer W)
  pub feature : String
  pub now : W → ℕ

-- `len(embeddings) == 1 && len(embeddings[0]) > 0`
abbrev pub one_vector : List (List Float32) → Option (List Float32)
one_vector ((x ∷ xs) ∷ []) = some (x ∷ xs)
one_vector _ = none

module _ {W : Type 0} (hash_query : String → String) where
  -- `validate`, with the parts that it makes sure of.
  unfoldable pub validate :
      Option (BasicRetriever W) → String → ℤ → Result (BasicRetriever W × Embedder W × Store W)
  validate none query top_k = err (errorf "basic retriever is required" [])
  validate (some r) query top_k = elim r.embedder [
    | none ↦ err (errorf "basic retriever embedder is required" [])
    | some embedder ↦ elim r.store [
      | none ↦ err (errorf "basic retriever store is required" [])
      | some store ↦
          if is_blank query
          then err (errorf "retrieval query is required" [])
          else if not_positive top_k
          then err (errorf "retrieval topK must be positive" [])
          else ok (r, embedder, store)
    ]
  ]

  abbrev record_identified :
      BasicRetriever W → String → ℤ → List Chunk → ℕ → ℕ → Option CorrelationIdentity → W → W
  record_identified r hash query_len chunks started ended none w = w
  record_identified r hash query_len chunks started ended (some i) w =
      if is_blank i.ai_trace_id
      then w
      else (record_with_export_failure_protection r.tracer
          (retrieval_trace i r.feature hash query_len chunks started ended) w).0

  unfoldable pub record_observation :
      BasicRetriever W → Context → String → ℤ → List Chunk → ℕ → ℕ → W → W
  unfolding record_with_export_failure_protection correlation_identity_from_context retrieval_trace
  record_observation r ctx hash query_len chunks started ended w = elim r.tracer [
    | none ↦ w
    | some _ ↦
        if is_blank r.feature
        then w
        else record_identified r hash query_len chunks started ended
            (correlation_identity_from_context (some ctx)) w
  ]

  abbrev after_search :
      BasicRetriever W → Context → String → ℤ → ℕ → W × Result (List Hit) → W × Result (List Chunk)
  after_search r ctx hash query_len started (w, err e) =
      (w, err (wrapf "search vector store query_hash=%s: %w" (hash ∷ []) e))
  after_search r ctx hash query_len started (w, ok hits) =
      let chunks = chunks_from_hits hits in
      (record_observation r ctx hash query_len chunks started (r.now w) w, ok chunks)

  abbrev search_with :
      BasicRetriever W
      → Store W
      → Context
      → String
      → ℤ
      → ℤ
      → Map
      → ℕ
      → W
      → Option (List Float32)
      → W × Result (List Chunk)
  search_with r store ctx hash query_len top_k filter started w none = (
    w,
    err (errorf "embed retrieval query query_hash=%s: expected one non-empty vector" (hash ∷ [])),
  )
  search_with r store ctx hash query_len top_k filter started w (some vector) =
      let q : Query = record {
        vector = vector;
        top_k = top_k;
        filter = some (clone_metadata filter);
        threshold = r.threshold;
      } in
      after_search r ctx hash query_len started (store.search q w)

  abbrev pub after_embed :
      BasicRetriever W
      → Store W
      → Context
      → String
      → ℤ
      → ℤ
      → Map
      → ℕ
      → W × Result (List (List Float32))
      → W × Result (List Chunk)
  after_embed r store ctx hash query_len top_k filter started (w, err e) =
      (w, err (wrapf "embed retrieval query query_hash=%s: %w" (hash ∷ []) e))
  after_embed r store ctx hash query_len top_k filter started (w, ok embeddings) =
      search_with r store ctx hash query_len top_k filter started w (one_vector embeddings)

  abbrev retrieve_valid :
      Context
      → String
      → ℤ
      → Map
      → W
      → Result (BasicRetriever W × Embedder W × Store W)
      → W × Result (List Chunk)
  retrieve_valid ctx query top_k filter w (err e) = (w, err e)
  retrieve_valid ctx query top_k filter w (ok (r, embedder, store)) =
      after_embed r store ctx (hash_query query) (pos (len query)) top_k filter (r.now w)
        (embedder.embed (query ∷ []) w)

  abbrev retrieve_live :
      Option (BasicRetriever W)
      → Context
      → String
      → ℤ
      → Map
      → W
      → Option Error
      → W × Result (List Chunk)
  retrieve_live r ctx query top_k filter w (some e) = (w, err e)
  retrieve_live r ctx query top_k filter w none =
      retrieve_valid ctx query top_k filter w (validate r query top_k)

  -- `Retrieve`
  unfoldable pub retrieve :
      Option (BasicRetriever W) → Context → String → ℤ → Map → W → W × Result (List Chunk)
  unfolding validate chunks_from_hits record_observation
  retrieve r ctx query top_k filter w = retrieve_live r ctx query top_k filter w ctx.err

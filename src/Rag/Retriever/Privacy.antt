-- ===== src/Rag/Retriever/Privacy.antt =====
-- What Retrieve returns and records, and that the text of a query does not leave it.
use Prim.Native.String.{len}
use ash_jazz_ai_agent.Prelude.{
  String, false, List, [], ◌∷◌, map, none, some, ◌≡◌, refl, sym, ap, ◌∙◌, arith,
}
use ash_jazz_ai_agent.Prelude.Float.{Float32}
use ash_jazz_ai_agent.Prelude.Int.{ℤ, pos, not_positive}
use ash_jazz_ai_agent.Prelude.Text.{is_blank}
use ash_jazz_ai_agent.Errors.{ok}
use ash_jazz_ai_agent.Json.{Map}
use ash_jazz_ai_agent.Obs.Identity.{Context}
use ash_jazz_ai_agent.VectorDb.{Hit}
use ash_jazz_ai_agent.Rag.Metadata.{clone_metadata}
use ash_jazz_ai_agent.Rag.RetrievalTrace.{chunks_from_hits}
use ash_jazz_ai_agent.Rag.Retriever.{Embedder, Store, BasicRetriever, after_embed, retrieve}

chunks_from_hits-ids :
    (hits : List Hit) → map (λ c. c.id) (chunks_from_hits hits) ≡ map (λ h. h.id) hits
unfolding chunks_from_hits
chunks_from_hits-ids [] = refl
chunks_from_hits-ids (h ∷ hits) = ap (◌∷◌ h.id) (chunks_from_hits-ids hits)

chunks_from_hits-scores :
    (hits : List Hit) → map (λ c. c.score) (chunks_from_hits hits) ≡ map (λ h. h.score) hits
unfolding chunks_from_hits
chunks_from_hits-scores [] = refl
chunks_from_hits-scores (h ∷ hits) = ap (◌∷◌ h.score) (chunks_from_hits-scores hits)

module _ {W : Type 0} (hash_query : String → String) (r : BasicRetriever W) (embedder : Embedder W)
    (store : Store W) (has_embedder : r.embedder ≡ some embedder) (has_store : r.store ≡ some store)
    (ctx : Context) (live : ctx.err ≡ none) (top_k : ℤ) (positive : not_positive top_k ≡ false)
    (filter : Map) (w : W) where
  -- On a retriever with both its parts, a query that is not blank goes to the embedder, and the rest of
  -- the call sees its hash and its length in bytes only.
  retrieve_hashed :
      (query : String)
      → is_blank query ≡ false
      → retrieve hash_query (some r) ctx query top_k filter w
        ≡ after_embed hash_query r store ctx
            (hash_query query)
            (pos (len query))
            top_k
            filter
            (r.now w)
            (embedder.embed (query ∷ []) w)
  unfolding retrieve
  retrieve_hashed query h = ground (arith, has_embedder, has_store, live, positive)

  -- Two queries that are not blank, with the same hash, the same length and the same answer of the
  -- embedder, have the same result, the same error and the same trace: neither the errors nor the trace
  -- carry anything else of a query's text.
  pub retrieve_private :
      (query query' : String)
      → is_blank query ≡ false
      → is_blank query' ≡ false
      → hash_query query ≡ hash_query query'
      → len query ≡ len query'
      → embedder.embed (query ∷ []) w ≡ embedder.embed (query' ∷ []) w
      → retrieve hash_query (some r) ctx query top_k filter w
        ≡ retrieve hash_query (some r) ctx query' top_k filter w
  retrieve_private query query' n n' h l e =
      retrieve_hashed query n
      ∙ ap
          (λ z.
            after_embed hash_query r store ctx z (pos (len query)) top_k filter (r.now w)
              (embedder.embed (query ∷ []) w))
          h
      ∙ ap
          (λ z.
            after_embed hash_query r store ctx (hash_query query') (pos z) top_k filter (r.now w)
              (embedder.embed (query ∷ []) w))
          l
      ∙ ap
          (after_embed hash_query r store ctx (hash_query query') (pos (len query')) top_k filter
            (r.now w))
          e
      ∙ sym (retrieve_hashed query' n')

  -- When the embedder gives one vector and the store finds hits, the chunks are those hits in their
  -- order, with their identifiers and scores.
  pub retrieve_found :
      (query : String) (x : Float32) (xs : List Float32) (hits : List Hit) (w' w'' : W)
      → is_blank query ≡ false
      → embedder.embed (query ∷ []) w ≡ (w', ok ((x ∷ xs) ∷ []))
      → store.search
          (record {
            vector = x ∷ xs;
            top_k = top_k;
            filter = some (clone_metadata filter);
            threshold = r.threshold;
          })
          w'
        ≡ (w'', ok hits)
      → let chunks = chunks_from_hits hits in
        ((retrieve hash_query (some r) ctx query top_k filter w).1 ≡ ok chunks)
        × (map (λ c. c.id) chunks ≡ map (λ h. h.id) hits)
        × (map (λ c. c.score) chunks ≡ map (λ h. h.score) hits)
  retrieve_found query x xs hits w' w'' n e f = (
    ground (arith, retrieve_hashed query n, e, f),
    chunks_from_hits-ids hits,
    chunks_from_hits-scores hits,
  )

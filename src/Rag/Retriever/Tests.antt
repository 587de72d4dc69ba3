-- ===== src/Rag/Retriever/Tests.antt =====
-- A retriever whose store knows one chunk, over a world that counts the calls of the embedder.
use ash_jazz_ai_agent.Prelude.{ℕ, suc, String, false, List, [], ◌∷◌, none, some, ◌≡◌, refl}
use ash_jazz_ai_agent.Prelude.Int.{pos}
use ash_jazz_ai_agent.Prelude.Text.{trim_space, is_blank}
use ash_jazz_ai_agent.Errors.{ok}
use ash_jazz_ai_agent.Json.{Fields, Value}
use ash_jazz_ai_agent.Obs.Identity.{Context}
use ash_jazz_ai_agent.VectorDb.{Hit}
use ash_jazz_ai_agent.Rag.Retriever.{Embedder, Store, BasicRetriever, retrieve}
use ash_jazz_ai_agent.Rag.Retriever.Privacy.{retrieve_private}

abbrev embedder : Embedder ℕ
embedder = record { embed = λ texts w. (suc w, ok ((record { bits = 1 } ∷ []) ∷ [])) }

abbrev hits : List Hit
hits =
    (record {
      id = "d:chunk:0000";
      score = record { bits = 5 };
      metadata = some (Fields.field "content" (Value.text "abc") Fields.no_field);
    })
    ∷ []

abbrev store : Store ℕ
store = record { search = λ q w. (w, ok hits) }

abbrev retriever : BasicRetriever ℕ
retriever = record {
  embedder = some embedder;
  store = some store;
  threshold = record { bits = 0 };
  tracer = none;
  feature = "qa";
  now = λ w. w;
}

abbrev context : Context
context = record { err = none; identity = none }

-- Stands for SHA-256.
abbrev hash_query : String → String
hash_query query = "3f0a"

where_blank : is_blank "where" ≡ false
unfolding trim_space
where_blank = refl

there_blank : is_blank "there" ≡ false
unfolding trim_space
there_blank = refl

retrieve_private_example :
    retrieve hash_query (some retriever) context "where" (pos 3) none 0
    ≡ retrieve hash_query (some retriever) context "there" (pos 3) none 0
retrieve_private_example =
    retrieve_private hash_query retriever embedder store refl refl context refl (pos 3) refl none 0
      "where" "there" where_blank there_blank refl refl refl

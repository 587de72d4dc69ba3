-- ===== src/VectorDb/Tests.antt =====
-- Runs of the store, over a machine whose numbers are their bits.
use mathlib.Core.List.{Permᴰ}
use ash_jazz_ai_agent.Prelude.{ℕ, String, List, [], ◌∷◌, none, some, ◌≡◌, refl, ◌+◌, ◌*◌, All, inl}
use ash_jazz_ai_agent.Prelude.Float.{Float32, Arithmetic, is_nan, magnitude, less, equal}
use ash_jazz_ai_agent.Prelude.Int.{pos, pos_part}
use ash_jazz_ai_agent.Prelude.Sort.{AllApart}
use ash_jazz_ai_agent.Prelude.TextOrder.{less_text}
use ash_jazz_ai_agent.Errors.{Error, ok}
use ash_jazz_ai_agent.Prelude.{◌&&◌, take}
use ash_jazz_ai_agent.VectorDb.Validity.{is_none, takes_all}
use ash_jazz_ai_agent.VectorDb.{Vector, Vectors, Query, Hit, MemoryStore, upsert}
use ash_jazz_ai_agent.VectorDb.Search.{cosine_similarity, search}
use ash_jazz_ai_agent.VectorDb.Contents.{IsUpserted, upsert-IsUpserted}
use ash_jazz_ai_agent.VectorDb.Ranking.{IsAnswer, IsScoredIn, ids, hits_in}
use ash_jazz_ai_agent.VectorDb.Answers.{search-IsAnswer, search-invariant}

abbrev machine : Arithmetic
machine = record {
  of_float32 = λ x. record { bits = x.bits };
  add = λ x y. record { bits = x.bits + y.bits };
  mul = λ x y. record { bits = x.bits * y.bits };
  div = λ x y. x;
  sqrt = λ x. x;
}

abbrev number : ℕ → Float32
number n = record { bits = n }

abbrev vector_of : String → ℕ → Vector
vector_of id n = record { id = id; embedding = number n ∷ []; metadata = none }

abbrev vectors : Vectors
vectors = ("a", vector_of "a" 1) ∷ ("b", vector_of "b" 2) ∷ []

abbrev turned : Vectors
turned = ("b", vector_of "b" 2) ∷ ("a", vector_of "a" 1) ∷ []

abbrev store : MemoryStore
store = record { dimension = pos 1; vectors = some vectors }

abbrev query : Query
query = record {
  vector = number 3 ∷ [];
  top_k = pos 1;
  filter = none;
  threshold = record { bits = 0 };
}

abbrev best : List Hit
best = (record { id = "b"; score = record { bits = 6 }; metadata = none }) ∷ []

finds_best : search machine (λ _. none) (some store) query ≡ ok best
unfolding search cosine_similarity less equal is_nan magnitude
finds_best = refl

scored : IsScoredIn machine query vectors
unfolding cosine_similarity is_nan magnitude
scored = (refl, (refl, tt))

distinct : AllApart less_text (ids machine query vectors)
unfolding less_text
distinct = ((inl refl, tt), (tt, tt))

upsert-IsUpserted_example :
    (is_none (upsert none (some store) (vector_of "b" 5 ∷ [])).1
      ≡ (is_none {A = Error} none && takes_all (some store) (vector_of "b" 5 ∷ [])))
    × IsUpserted "b"
        (some store)
        (vector_of "b" 5 ∷ [])
        (upsert none (some store) (vector_of "b" 5 ∷ []))
upsert-IsUpserted_example = upsert-IsUpserted "b" none (some store) (vector_of "b" 5 ∷ [])

search-IsAnswer_example :
    (all : List Hit) × Permᴰ all (hits_in machine query vectors)
    × (best ≡ take (pos_part query.top_k) all)
    × All (IsAnswer machine query vectors) best
search-IsAnswer_example =
    search-IsAnswer machine query vectors (λ _. none) store refl best finds_best

search-invariant_example :
    search machine (λ _. none) (some (record { dimension = pos 1; vectors = some vectors })) query
    ≡ search machine (λ _. none) (some (record { dimension = pos 1; vectors = some turned })) query
search-invariant_example =
    search-invariant machine query (pos 1) vectors turned (Permᴰ.swap refl refl) scored distinct

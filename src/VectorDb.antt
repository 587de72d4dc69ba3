-- ===== src/VectorDb.antt =====
-- pkg/ai/vectordb: vectordb.go and memory_store.go. The lock makes each operation one function. The
-- map of vectors is a dictionary, in the order in which a range over it happens to go.
pub mod Search
pub mod Contents
pub mod Validity
pub mod Ranking
pub mod Answers
pub mod Tests
use ash_jazz_ai_agent.Prelude.{
  ℕ, suc, String, Bool, true, false, not, ◌&&◌, List, [], ◌∷◌, Option, none, some, length,
  if◌then◌else◌,
}
use ash_jazz_ai_agent.Prelude.Decimal.{decimal}
use ash_jazz_ai_agent.Prelude.Dict.{Dict, insert, erase, text_key}
use ash_jazz_ai_agent.Prelude.Float.{Float32, Float64, is_zero32}
use ash_jazz_ai_agent.Prelude.Int.{ℤ, pos, pos_part, leb_ℤ, not_positive}
use ash_jazz_ai_agent.Prelude.Text.{is_blank}
use ash_jazz_ai_agent.Errors.{Error, errorf, wrapf, Result, ok, err}
use ash_jazz_ai_agent.Json.{Map, clone_map}

pub record Vector : Type 0 where
  pub id : String
  pub embedding : List Float32
  pub metadata : Map

pub record Query : Type 0 where
  pub vector : List Float32
  pub top_k : ℤ
  pub filter : Map
  pub threshold : Float64

pub record Hit : Type 0 where
  pub id : String
  pub score : Float64
  pub metadata : Map

abbrev pub Vectors : Type 0
Vectors = Dict String Vector

-- The map is nil in a store that NewMemoryStore did not make.
pub record MemoryStore : Type 0 where
  pub dimension : ℤ
  pub vectors : Option Vectors

abbrev pub new_memory_store : ℤ → MemoryStore
new_memory_store dimension = record { dimension = dimension; vectors = some [] }

-- A store with a positive dimension, and its map.
pub record Ready : Type 0 where
  pub dimension : ℤ
  pub vectors : Vectors

abbrev validate_map : ℤ → Option Vectors → Result Ready
validate_map dimension none = err (errorf "memory vector store is not initialized" [])
validate_map dimension (some vectors) = ok (record { dimension = dimension; vectors = vectors })

-- `validateReady`, with what it makes sure of.
unfoldable pub validate_ready : Option MemoryStore → Result Ready
validate_ready none = err (errorf "memory vector store is required" [])
validate_ready (some s) =
    if not_positive s.dimension
    then err (errorf "memory vector store dimension must be positive" [])
    else validate_map s.dimension s.vectors

-- `len(vector) == dimension`
abbrev pub has_dimension : List Float32 → ℤ → Bool
has_dimension xs dimension = leb_ℤ (pos (length xs)) dimension && leb_ℤ dimension (pos (length xs))

unfoldable pub zero_norm : List Float32 → Bool
zero_norm [] = true
zero_norm (x ∷ xs) = is_zero32 x && zero_norm xs

abbrev wrong_dimension : String → List Float32 → ℤ → Error
wrong_dimension format xs dimension =
    errorf format (decimal (length xs) ∷ decimal (pos_part dimension) ∷ [])

unfoldable pub validate_vector : Vector → ℤ → Option Error
unfolding zero_norm
validate_vector v dimension =
    if is_blank v.id
    then some (errorf "id is required" [])
    else if not (has_dimension v.embedding dimension)
    then some (wrong_dimension "embedding dimension = %d, want %d" v.embedding dimension)
    else if zero_norm v.embedding
    then some (errorf "embedding norm must be positive" [])
    else none

unfoldable pub validate_query : Query → ℤ → Option Error
unfolding zero_norm
validate_query q dimension =
    if not (has_dimension q.vector dimension)
    then some (wrong_dimension "query vector dimension = %d, want %d" q.vector dimension)
    else if not_positive q.top_k
    then some (errorf "query topK must be positive" [])
    else if zero_norm q.vector
    then some (errorf "query vector norm must be positive" [])
    else none

-- The copy of an embedding is the identity on values.
unfoldable pub clone_vector : Vector → Vector
clone_vector v = record { id = v.id; embedding = v.embedding; metadata = clone_map v.metadata }

abbrev at_index : ℕ → Error → Error
at_index i e = wrapf "upsert vector at index %d: %w" (decimal i ∷ []) e

abbrev cons_cloned : Vector → Result (List Vector) → Result (List Vector)
cons_cloned v (err e) = err e
cons_cloned v (ok vs) = ok (clone_vector v ∷ vs)

-- The first loop of Upsert: every vector is checked before any is stored.
unfoldable pub clone_valid : ℤ → ℕ → List Vector → Result (List Vector)
unfolding validate_vector clone_vector decimal
clone_valid dimension i [] = ok []
clone_valid dimension i (v ∷ vs) =
    let rest = clone_valid dimension (suc i) vs in
    elim (validate_vector v dimension) [ some e ↦ err (at_index i e) | none ↦ cons_cloned v rest ]

-- The second loop of Upsert.
unfoldable pub store_all : List Vector → Vectors → Vectors
store_all [] m = m
store_all (v ∷ vs) m = store_all vs (insert v.id v m)

abbrev with_vectors : Ready → Vectors → Option MemoryStore
with_vectors r m = some (record { dimension = r.dimension; vectors = some m })

abbrev upsert_valid :
    Option MemoryStore → Ready → Result (List Vector) → Option MemoryStore × Option Error
upsert_valid s r (err e) = (s, some e)
upsert_valid s r (ok cloned) = (with_vectors r (store_all cloned r.vectors), none)

abbrev upsert_ready :
    Option MemoryStore → Result Ready → List Vector → Option MemoryStore × Option Error
upsert_ready s (err e) vs = (s, some e)
upsert_ready s (ok r) vs = upsert_valid s r (clone_valid r.dimension 0 vs)

-- `Upsert`: `cancelled` is ctx.Err(), and none is the nil store.
unfoldable pub upsert :
    Option Error → Option MemoryStore → List Vector → Option MemoryStore × Option Error
unfolding validate_ready clone_valid store_all
upsert (some e) s vs = (s, some e)
upsert none s vs = upsert_ready s (validate_ready s) vs

unfoldable pub delete_all : List String → Vectors → Vectors
delete_all [] m = m
delete_all (id ∷ ids) m = delete_all ids (erase id m)

abbrev delete_ready :
    Option MemoryStore → Result Ready → List String → Option MemoryStore × Option Error
delete_ready s (err e) ids = (s, some e)
delete_ready s (ok r) ids = (with_vectors r (delete_all ids r.vectors), none)

unfoldable pub delete :
    Option Error → Option MemoryStore → List String → Option MemoryStore × Option Error
unfolding validate_ready delete_all
delete (some e) s ids = (s, some e)
delete none s ids = delete_ready s (validate_ready s) ids

abbrev error_of {ℓ} : {A : Type ℓ} → Result A → Option Error
error_of (ok a) = none
error_of (err e) = some e

unfoldable pub health : Option Error → Option MemoryStore → Option Error
unfolding validate_ready
health (some e) s = some e
health none s = error_of (validate_ready s)

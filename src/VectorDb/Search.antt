-- ===== src/VectorDb/Search.antt =====
-- pkg/ai/vectordb/memory_store.go: (*MemoryStore).Search. The arithmetic of float64 is a parameter.
use ash_jazz_ai_agent.Prelude.{
  ℕ, suc, String, Bool, true, false, not, ◌&&◌, ◌||◌, List, [], ◌∷◌, take, Option, none, some,
  if◌then◌else◌,
}
use ash_jazz_ai_agent.Prelude.Float.{Float32, Float64, Arithmetic, less, equal}
use ash_jazz_ai_agent.Prelude.Int.{pos_part}
use ash_jazz_ai_agent.Prelude.Sort.{sort}
use ash_jazz_ai_agent.Prelude.TextOrder.{less_text}
use ash_jazz_ai_agent.Errors.{Error, Result, ok, err}
use ash_jazz_ai_agent.Json.{Value, Fields, no_field, field, Map, get_map, deep_equal, clone_map}
use ash_jazz_ai_agent.VectorDb.{
  Vector, Query, Hit, MemoryStore, Ready, validate_ready, validate_query,
}

-- `got, ok := metadata[key]; ok && reflect.DeepEqual(got, want)`
abbrev is_value : Option Value → Value → Bool
is_value none want = false
is_value (some got) want = deep_equal got want

unfoldable pub matches_fields : Map → Fields → Bool
matches_fields metadata no_field = true
matches_fields metadata (field key want f) =
    is_value (get_map key metadata) want && matches_fields metadata f

-- A nil filter has no entry.
abbrev pub matches_filter : Map → Map → Bool
matches_filter metadata none = true
matches_filter metadata (some f) = matches_fields metadata f

-- `hits[i]` comes before `hits[j]`: by score from above, and by identifier among equal scores.
unfoldable pub before : Hit → Hit → Bool
unfolding equal less less_text
before a b = if equal a.score b.score then less_text a.id b.id else less b.score a.score

module _ (machine : Arithmetic) where
  -- The loop of cosineSimilarity, on the part of the vectors that both have.
  unfoldable pub sums :
      List Float32 → List Float32 → Float64 × Float64 × Float64 → Float64 × Float64 × Float64
  sums (x ∷ xs) (y ∷ ys) (dot, norm_a, norm_b) =
      let a = machine.of_float32 x in
      let b = machine.of_float32 y in
      sums xs ys (
        machine.add dot (machine.mul a b),
        machine.add norm_a (machine.mul a a),
        machine.add norm_b (machine.mul b b),
      )
  sums _ _ totals = totals

  abbrev zero : Float64
  zero = record { bits = 0 }

  unfoldable pub cosine_similarity : List Float32 → List Float32 → Float64
  unfolding sums equal
  cosine_similarity a b =
      let (dot, norm_a, norm_b) = sums a b (zero, zero, zero) in
      if equal norm_a zero || equal norm_b zero
      then zero
      else machine.div dot (machine.mul (machine.sqrt norm_a) (machine.sqrt norm_b))

  abbrev pub score_of : Query → Vector → Float64
  score_of q v = cosine_similarity q.vector v.embedding

  abbrev pub hit_of : Query → Vector → Hit
  hit_of q v = record {
    id = v.id;
    score = score_of q v;
    metadata = clone_map (clone_map v.metadata);
  }

  -- Neither `continue` of the loop is taken.
  unfoldable pub is_hit : Query → Vector → Bool
  unfolding matches_fields
  is_hit q v =
      matches_filter (clone_map v.metadata) q.filter && not (less (score_of q v) q.threshold)

  abbrev cons_hit : Query → Vector → Result (List Hit) → Result (List Hit)
  cons_hit q v (err e) = err e
  cons_hit q v (ok hits) = ok (if is_hit q v then hit_of q v ∷ hits else hits)

  -- The loop over the vectors; `cancelled n` is ctx.Err() as it is read at the n-th.
  unfoldable pub collect :
      (ℕ → Option Error) → Query → ℕ → List (String × Vector) → Result (List Hit)
  unfolding is_hit
  collect cancelled q n [] = ok []
  collect cancelled q n ((_, v) ∷ rest) =
      let later = collect cancelled q (suc n) rest in
      elim (cancelled n) [ some e ↦ err e | none ↦ cons_hit q v later ]

  abbrev pub ranked : Query → Result (List Hit) → Result (List Hit)
  ranked q (err e) = err e
  ranked q (ok hits) = ok (take (pos_part q.top_k) (sort before hits))

  abbrev search_valid : (ℕ → Option Error) → Query → Ready → Option Error → Result (List Hit)
  search_valid cancelled q r (some e) = err e
  search_valid cancelled q r none = ranked q (collect cancelled q 1 r.vectors)

  abbrev search_ready : (ℕ → Option Error) → Query → Result Ready → Result (List Hit)
  search_ready cancelled q (err e) = err e
  search_ready cancelled q (ok r) = search_valid cancelled q r (validate_query q r.dimension)

  abbrev search_live :
      (ℕ → Option Error) → Option MemoryStore → Query → Option Error → Result (List Hit)
  search_live cancelled s q (some e) = err e
  search_live cancelled s q none = search_ready cancelled q (validate_ready s)

  -- `Search`: `cancelled 0` is the first reading of ctx.Err(), and none is the nil store.
  unfoldable pub search : (ℕ → Option Error) → Option MemoryStore → Query → Result (List Hit)
  unfolding validate_ready validate_query collect sort before
  search cancelled s q = search_live cancelled s q (cancelled 0)

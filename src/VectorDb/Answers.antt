-- ===== src/VectorDb/Answers.antt =====
-- What (*MemoryStore).Search promises of the list that it returns.
use mathlib.Core.List.{Permᴰ}
use mathlib.Core.List.Permᴰ
use ash_jazz_ai_agent.Prelude.{ℕ, List, take, Option, none, some, ◌≡◌, refl, sym, subst, arith, All}
use ash_jazz_ai_agent.Prelude.Float.{Arithmetic}
use ash_jazz_ai_agent.Prelude.Int.{ℤ, pos_part}
use ash_jazz_ai_agent.Prelude.Sort.{
  AllApart, IsSorted, sort, sort-perm, sort-IsSorted, sort-invariant, All-perm,
}
use ash_jazz_ai_agent.Prelude.TextOrder.{less_text}
use ash_jazz_ai_agent.Errors.{Error, Result, ok, err}
use ash_jazz_ai_agent.VectorDb.{Vectors, Query, Hit, MemoryStore}
use ash_jazz_ai_agent.VectorDb.Search.{before, collect, ranked, search}
use ash_jazz_ai_agent.VectorDb.Ranking.{
  IsScored, IsAnswer, IsScoredIn, IsCollected, ids, hits_in, hits_in-perm, hits_in-IsScored,
  hits_in-AllApart, hits_in-IsAnswer, collect-IsCollected, collect_live, take-All, take-IsSorted,
  before-IsWeakOrder,
}

module _ (machine : Arithmetic) (q : Query) (m : Vectors) where
  -- The first topK of all the answers in some order, each of which answers the query.
  abbrev IsFound : Result (List Hit) → Type 0
  IsFound (err e) = Unit {0}
  IsFound (ok hits) =
      (all : List Hit) × Permᴰ all (hits_in machine q m)
      × (hits ≡ take (pos_part q.top_k) all)
      × All (IsAnswer machine q m) hits

  abbrev IsRanked : Result (List Hit) → Type 0
  IsRanked (err e) = Unit {0}
  IsRanked (ok hits) = IsSorted before hits

  ranked-IsFound :
      (r : Result (List Hit)) → IsCollected machine q m r → IsFound (ranked machine q r)
  ranked-IsFound (err e) c = tt
  ranked-IsFound (ok hits) c =
      let all = subst (All (IsAnswer machine q m)) (sym c) (hits_in-IsAnswer machine q m) in
      let sorted = All-perm (IsAnswer machine q m) (Permᴰ.symm (sort-perm before hits)) all in
      (
        sort before hits,
        subst (Permᴰ (sort before hits)) c (sort-perm before hits),
        refl,
        take-All (IsAnswer machine q m) (pos_part q.top_k) (sort before hits) sorted,
      )

  ranked-IsRanked :
      (r : Result (List Hit))
      → IsScoredIn machine q m
      → IsCollected machine q m r
      → IsRanked (ranked machine q r)
  ranked-IsRanked (err e) s c = tt
  ranked-IsRanked (ok hits) s c =
      let all = subst (All IsScored) (sym c) (hits_in-IsScored machine q m s) in
      take-IsSorted before (pos_part q.top_k) (sort before hits)
        (sort-IsSorted before before-IsWeakOrder hits all)

  module _ (cancelled : ℕ → Option Error) (s : MemoryStore) (stored : s.vectors ≡ some m)
      (hits : List Hit) (found : search machine cancelled (some s) q ≡ ok hits) where
    -- The list that Search returns is the first topK of all the answers in some order: one hit for each
    -- stored vector whose metadata has an equal value under every key of the filter and whose score is
    -- not below the threshold. Each hit is made from such a vector.
    pub search-IsAnswer :
        (all : List Hit) × Permᴰ all (hits_in machine q m)
        × (hits ≡ take (pos_part q.top_k) all)
        × All (IsAnswer machine q m) hits
    unfolding search
    search-IsAnswer =
        let every = collect-IsCollected machine q cancelled 1 m in
        ground (arith, ranked-IsFound (collect machine cancelled q 1 m) every)

    -- The list is in order where no stored vector scores a NaN: by score from above, and by identifier
    -- among equal scores.
    pub search-IsSorted : IsScoredIn machine q m → IsSorted before hits
    unfolding search
    search-IsSorted n =
        let every = collect-IsCollected machine q cancelled 1 m in
        ground (arith, ranked-IsRanked (collect machine cancelled q 1 m) n every)

-- Under a live context the list does not depend on the order in which the map gives its entries,
-- where no two stored vectors have the same identifier and none scores a NaN.
pub search-invariant :
    (machine : Arithmetic) (q : Query) (dimension : ℤ) (m m' : Vectors)
    → Permᴰ m m'
    → IsScoredIn machine q m
    → AllApart less_text (ids machine q m)
    → search machine (λ _. none) (some (record { dimension = dimension; vectors = some m })) q
      ≡ search machine (λ _. none) (some (record { dimension = dimension; vectors = some m' })) q
unfolding search
search-invariant machine q dimension m m' p s a =
    let same : sort before (hits_in machine q m) ≡ sort before (hits_in machine q m') =
      sort-invariant before before-IsWeakOrder (hits_in-perm machine q p)
        (hits_in-IsScored machine q m s) (hits_in-AllApart machine q m s a) in
    ground (arith, collect_live machine q 1 m, collect_live machine q 1 m', same)

-- ===== src/Eval/Retrieval/Counts.antt =====
-- The counts behind the retrieval metrics stay within their bounds.
use ash_jazz_ai_agent.Prelude.{
  ℕ, suc, ◌+◌, ◌≤◌, String, true, false, List, [], ◌∷◌, ◌≡◌, refl, subst, arith, length,
  length-take, take, ◌==◌, if◌then◌else◌,
}
use ash_jazz_ai_agent.Prelude.Int.{ℤ}
use ash_jazz_ai_agent.Prelude.Text.{trim_space, text_beq_iff}
use ash_jazz_ai_agent.Eval.Metrics.{is_held}
use ash_jazz_ai_agent.Eval.Retrieval.{
  Machine, Progress, no_progress, limit_of, visit, visit_all, progress_at,
}

-- How many of the relevant identifiers have not been seen.
unfoldable unseen : List String → List String → ℕ
unseen seen [] = 0
unseen seen (r ∷ relevant) =
    let rest = unseen seen relevant in if is_held r seen then rest else rest + 1

unseen-cons-le :
    (id : String) (seen relevant : List String) → unseen (id ∷ seen) relevant ≤ unseen seen relevant
unfolding unseen is_held
unseen-cons-le id seen [] = omega arith
unseen-cons-le id seen (r ∷ relevant) = ground (arith, unseen-cons-le id seen relevant)

-- An identifier that is seen for the first time is one unseen less.
unseen-cons-lt :
    (id : String) (seen relevant : List String)
    → is_held id seen ≡ false
    → is_held id relevant ≡ true
    → unseen (id ∷ seen) relevant + 1 ≤ unseen seen relevant
unfolding unseen is_held
unseen-cons-lt id seen [] n h = ground (arith, h)
unseen-cons-lt id seen (r ∷ relevant) n h = ground (
  arith,
  n,
  h,
  text_beq_iff id r,
  text_beq_iff r id,
  unseen-cons-lt id seen relevant,
  unseen-cons-le id seen relevant,
)

unseen-nil : (relevant : List String) → unseen [] relevant ≤ length relevant
unfolding unseen is_held
unseen-nil [] = omega arith
unseen-nil (r ∷ relevant) = omega (arith, unseen-nil relevant)

-- After `index` identifiers.
record IsCounted (relevant : List String) (index : ℕ) (p : Progress) : Type 0 where
  distinct : p.hits + unseen p.seen_ranked relevant ≤ length relevant
  hits_within : p.hits ≤ index
  rank_within : p.first_relevant_rank ≤ index
  ranked : (p.first_relevant_rank == 0) ≡ (p.hits == 0)

module _ (m : Machine) where
  visit-IsCounted :
      (relevant : List String) (index : ℕ) (raw : String) (p : Progress)
      → IsCounted relevant index p
      → IsCounted relevant (suc index) (visit m relevant (suc index) raw p)
  unfolding visit
  visit-IsCounted relevant index raw p c =
      let id = trim_space raw in
      record {
        distinct = ground (
          arith,
          c.distinct,
          unseen-cons-lt id p.seen_ranked relevant,
          unseen-cons-le id p.seen_ranked relevant,
        );
        hits_within = ground (arith, c.hits_within);
        rank_within = ground (arith, c.rank_within);
        ranked = ground (arith, c.ranked);
      }

  visit_all-IsCounted :
      (relevant : List String) (index n : ℕ) (ranked : List String) (p : Progress)
      → n ≡ index + length ranked
      → IsCounted relevant index p
      → IsCounted relevant n (visit_all m relevant index ranked p)
  unfolding visit_all
  visit_all-IsCounted relevant index n [] p e c =
      subst (λ j. IsCounted relevant j p) (omega (arith, e)) c
  visit_all-IsCounted relevant index n (raw ∷ ranked) p e c =
      visit_all-IsCounted relevant (suc index) n ranked (visit m relevant (suc index) raw p)
        (omega (arith, e)) (visit-IsCounted relevant index raw p c)

  -- Within the first k places there are at most as many hits as places and as relevant identifiers, so
  -- that the recall needs no clamp; the first relevant rank is within the places, and there is one
  -- exactly when there is a hit.
  pub progress_at-bounds :
      (ranked relevant : List String) (k : ℤ)
      → let p = progress_at m ranked relevant k in
        (p.hits ≤ length relevant)
        × (p.hits ≤ limit_of k ranked)
        × (p.first_relevant_rank ≤ limit_of k ranked)
        × ((p.first_relevant_rank == 0) ≡ (p.hits == 0))
  progress_at-bounds ranked relevant k =
      let limit = limit_of k ranked in
      let places = take limit ranked in
      let start : IsCounted relevant 0 no_progress = record {
        distinct = omega (arith, unseen-nil relevant);
        hits_within = omega arith;
        rank_within = omega arith;
        ranked = refl;
      } in
      let c =
        visit_all-IsCounted relevant 0 (length places) places no_progress (omega arith) start in
      let short = length-take limit ranked in
      (
        omega (arith, c.distinct),
        omega (arith, c.hits_within, short),
        omega (arith, c.rank_within, short),
        c.ranked,
      )

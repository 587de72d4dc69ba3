-- ===== src/Eval/Retrieval.antt =====
-- pkg/ai/eval/retrieval_metrics.go. A set of identifiers is a list without repetitions; the machine's
-- quotient of two numbers, the reciprocal logarithm of a rank, the sum and the quotient of two float64
-- are parameters.
pub mod Counts
pub mod Tally
pub mod Tests
use ash_jazz_ai_agent.Prelude.{
  ℕ, zero, suc, ◌+◌, String, Bool, true, false, not, ◌&&◌, ◌||◌, List, [], ◌∷◌, length, take, ◌==◌,
  leb, if◌then◌else◌,
}
use ash_jazz_ai_agent.Prelude.Float.{Float64, equal}
use ash_jazz_ai_agent.Prelude.Int.{ℤ, pos_part, not_positive}
use ash_jazz_ai_agent.Prelude.Text.{is_empty, trim_space}
use ash_jazz_ai_agent.Eval.Evidence
use ash_jazz_ai_agent.Eval.Metrics.{clamp01, is_held, is_nil}

pub record RetrievalScores : Type 0 where
  pub recall_at_k : Float64
  pub mrr : Float64
  pub ndcg_at_k : Float64

abbrev pub no_scores : RetrievalScores
no_scores = record { recall_at_k = Evidence.zero; mrr = Evidence.zero; ndcg_at_k = Evidence.zero }

-- What the code computes with float64: a quotient of two numbers, 1 / log2(rank + 1), and + and /.
pub record Machine : Type 0 where
  pub ratio : ℕ → ℕ → Float64
  pub discount : ℕ → Float64
  pub sum : Float64 → Float64 → Float64
  pub quotient : Float64 → Float64 → Float64

-- The loop of `buildRelevantSet`.
unfoldable pub add_relevant : List String → List String → List String
unfolding is_held
add_relevant relevant [] = relevant
add_relevant relevant (raw ∷ rest) =
    let id = trim_space raw in
    let kept = add_relevant relevant rest in
    let added = add_relevant (id ∷ relevant) rest in
    if is_empty id || is_held id relevant then kept else added

unfoldable pub build_relevant_set : List String → List String
unfolding add_relevant
build_relevant_set relevant_ids = add_relevant [] relevant_ids

-- The variables of the loop; the rank of the first relevant identifier is 0 until there is one.
pub record Progress : Type 0 where
  pub hits : ℕ
  pub first_relevant_rank : ℕ
  pub dcg : Float64
  pub seen_ranked : List String

abbrev pub no_progress : Progress
no_progress = record { hits = 0; first_relevant_rank = 0; dcg = Evidence.zero; seen_ranked = [] }

abbrev ideal_relevant_count : ℕ → ℕ → ℕ
ideal_relevant_count relevant_count limit =
    if leb limit relevant_count then limit else relevant_count

-- `min(k, len(rankedIDs))` for a positive k.
abbrev pub limit_of : ℤ → List String → ℕ
limit_of k ranked = let n = length ranked in if leb (pos_part k) n then pos_part k else n

module _ (m : Machine) where
  -- The body of the loop, for one identifier at its rank.
  unfoldable pub visit : List String → ℕ → String → Progress → Progress
  unfolding is_held
  visit relevant rank raw p =
      let id = trim_space raw in
      let seen = record p { seen_ranked = id ∷ p.seen_ranked } in
      let hit = record seen {
        hits = p.hits + 1;
        first_relevant_rank = if p.first_relevant_rank == 0 then rank else p.first_relevant_rank;
        dcg = m.sum p.dcg (m.discount rank);
      } in
      if is_empty id
      then p
      else if is_held id p.seen_ranked
      then p
      else if is_held id relevant
      then hit
      else seen

  unfoldable pub visit_all : List String → ℕ → List String → Progress → Progress
  unfolding visit
  visit_all relevant index [] p = p
  visit_all relevant index (raw ∷ ranked) p =
      visit_all relevant (suc index) ranked (visit relevant (suc index) raw p)

  abbrev reciprocal_rank : ℕ → Float64
  reciprocal_rank rank = if rank == 0 then Evidence.zero else m.ratio 1 rank

  -- The sum over the ranks up to this one.
  unfoldable pub ideal_gain : ℕ → Float64
  ideal_gain zero = Evidence.zero
  ideal_gain (suc rank) = m.sum (ideal_gain rank) (m.discount (suc rank))

  unfoldable pub normalized_discounted_gain : Float64 → ℕ → Float64
  unfolding ideal_gain equal clamp01
  normalized_discounted_gain dcg ideal_hits =
      let idcg = ideal_gain ideal_hits in
      if ideal_hits == 0
      then Evidence.zero
      else if equal idcg Evidence.zero
      then Evidence.zero
      else clamp01 (m.quotient dcg idcg)

  abbrev pub progress_at : List String → List String → ℤ → Progress
  progress_at ranked relevant k = visit_all relevant 0 (take (limit_of k ranked) ranked) no_progress

  abbrev scores_of : List String → List String → ℤ → Progress → RetrievalScores
  scores_of ranked relevant k p = record {
    recall_at_k = clamp01 (m.ratio p.hits (length relevant));
    mrr = reciprocal_rank p.first_relevant_rank;
    ndcg_at_k =
        normalized_discounted_gain p.dcg
          (ideal_relevant_count (length relevant) (limit_of k ranked));
  }

  unfoldable pub retrieval_metrics_at_k : List String → List String → ℤ → RetrievalScores
  unfolding build_relevant_set visit_all normalized_discounted_gain clamp01
  retrieval_metrics_at_k ranked relevant_ids k =
      let relevant = build_relevant_set relevant_ids in
      if is_nil ranked || (is_nil relevant || not_positive k)
      then no_scores
      else scores_of ranked relevant k (progress_at ranked relevant k)

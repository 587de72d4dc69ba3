-- ===== src/Eval/Retrieval/Tally.antt =====
-- What the loop of RetrievalMetricsAtK counts, against definitions without its state.
use ash_jazz_ai_agent.Prelude.{
  ℕ, suc, ◌+◌, String, Bool, true, false, not, ◌&&◌, List, [], ◌∷◌, ◌≡◌, ◌==◌, if◌then◌else◌,
}
use ash_jazz_ai_agent.Prelude.Text.{trim_space, is_empty}
use ash_jazz_ai_agent.Eval.Metrics.{is_held}
use ash_jazz_ai_agent.Eval.Retrieval.{Progress}

-- How many of the relevant identifiers are among the texts.
abbrev pub count_found : List String → List String → ℕ
count_found texts [] = 0
count_found texts (r ∷ relevant) =
    let rest = count_found texts relevant in if is_held r texts then rest + 1 else rest

abbrev pub is_relevant : List String → String → Bool
is_relevant relevant raw = not (is_empty (trim_space raw)) && is_held (trim_space raw) relevant

-- The rank, counted from one behind `index`, of the first relevant identifier, or 0.
abbrev pub first_rank : List String → ℕ → List String → ℕ
first_rank relevant index [] = 0
first_rank relevant index (raw ∷ ranked) =
    let later = first_rank relevant (suc index) ranked in
    if is_relevant relevant raw then suc index else later

-- No identifier is empty, and none stands twice.
abbrev is_set : List String → Bool
is_set [] = true
is_set (r ∷ relevant) = not (is_empty r) && (not (is_held r relevant) && is_set relevant)

-- After some texts: what has been seen are the texts that are not empty, the hits are the relevant
-- identifiers among them, and there is a first rank when one of them is relevant.
record IsTallied (relevant texts : List String) (p : Progress) : Type 0 where
  seen : (x : String) → is_empty x ≡ false → is_held x p.seen_ranked ≡ is_held x texts
  hits : p.hits ≡ count_found p.seen_ranked relevant
  fresh :
      (x : String)
      → is_held x p.seen_ranked ≡ true
      → is_held x relevant ≡ true
      → (p.first_relevant_rank == 0) ≡ false

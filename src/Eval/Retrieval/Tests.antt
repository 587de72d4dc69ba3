-- ===== src/Eval/Retrieval/Tests.antt =====
-- A ranking with a repeated identifier.
use ash_jazz_ai_agent.Prelude.{String, List, [], ◌∷◌, ◌≡◌, refl}
use ash_jazz_ai_agent.Prelude.Int.{pos}
use ash_jazz_ai_agent.Prelude.Text.{trim_space}
use ash_jazz_ai_agent.Eval.Evidence.{one}
use ash_jazz_ai_agent.Eval.Retrieval.{Machine, build_relevant_set, progress_at, visit_all}

abbrev machine : Machine
machine = record {
  ratio = λ a b. one;
  discount = λ rank. one;
  sum = λ a b. b;
  quotient = λ a b. one;
}

abbrev ranked : List String
ranked = "x" ∷ "a" ∷ " a" ∷ "b" ∷ []

abbrev relevant : List String
relevant = "a" ∷ "b" ∷ []

relevant_run : build_relevant_set ("b" ∷ "a " ∷ "b" ∷ "" ∷ []) ≡ relevant
unfolding build_relevant_set trim_space
relevant_run = refl

-- Within three places there is one hit, at the second.
hits_run : (progress_at machine ranked relevant (pos 3)).hits ≡ 1
unfolding visit_all trim_space
hits_run = refl

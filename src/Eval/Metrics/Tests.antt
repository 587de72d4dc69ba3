-- ===== src/Eval/Metrics/Tests.antt =====
-- The metrics on one sample, and a clamped number.

use ash_jazz_ai_agent.Prelude.{[], ◌∷◌, none, ◌≡◌, refl}
use ash_jazz_ai_agent.Prelude.Float.{Float64}
use ash_jazz_ai_agent.Prelude.Int.{pos}
use ash_jazz_ai_agent.Prelude.Text.{trim_space}
use ash_jazz_ai_agent.Errors.{ok}
use ash_jazz_ai_agent.Obs.Identity.{empty_identity}
use ash_jazz_ai_agent.Eval.Dataset.{Sample, Prediction}
use ash_jazz_ai_agent.Eval.Evidence.{one}
use ash_jazz_ai_agent.Eval.Metrics.{
  exact_match, contains_all, normalize_keywords, contains_each, count_hits, keep_given,
}
use ash_jazz_ai_agent.Prelude.Substring.{to_lower}

abbrev sample : Sample
sample = record {
  id = "s1";
  query = "where?";
  ground_truth = "Paris ";
  relevant_ctx = "a" ∷ "b" ∷ [];
  difficulty = "";
  category = "";
  meta = none;
}

abbrev prediction : Prediction
prediction = record {
  answer = " Paris";
  context = "b " ∷ "c" ∷ [];
  tokens_used = pos 0;
  trace_identity = empty_identity;
}

exact_run : exact_match none sample prediction ≡ ok one
unfolding exact_match trim_space
exact_run = refl

contains_run : contains_all (λ c. c) ("PARIS" ∷ " " ∷ []) none sample prediction ≡ ok one
unfolding contains_all normalize_keywords contains_each to_lower trim_space
contains_run = refl

hits_run : count_hits (keep_given prediction.context) sample.relevant_ctx ≡ 1
unfolding count_hits trim_space
hits_run = refl

-- Two.
abbrev two : Float64
two = record { bits = 0x4000_0000_0000_0000 }

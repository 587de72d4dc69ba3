-- ===== src/Eval/Runner/Tests.antt =====
-- A run over two samples with one metric, in a world that counts the predictions.
use ash_jazz_ai_agent.Prelude.{ℕ, suc, String, List, [], ◌∷◌, Option, none, some}
use ash_jazz_ai_agent.Prelude.Float.{Float64}
use ash_jazz_ai_agent.Prelude.Int.{pos}
use ash_jazz_ai_agent.Errors.{Error, Result, ok}
use ash_jazz_ai_agent.Eval.Dataset.{Sample, Prediction}
use ash_jazz_ai_agent.Eval.Evidence.{one}
use ash_jazz_ai_agent.Eval.Runner.{LocalRunner, Metric}

abbrev sample : String → Sample
sample id = record {
  id = id;
  query = "where?";
  ground_truth = "Paris";
  relevant_ctx = [];
  difficulty = "";
  category = "";
  meta = none;
}

abbrev samples : List Sample
samples = sample "m1" ∷ sample "m2" ∷ []

abbrev load_samples : ℕ → ℕ × Result (List Sample)
load_samples w = (w, ok samples)

abbrev predict : Sample → ℕ → ℕ × Result Prediction
predict s w = (
  suc w,
  ok (record {
    answer = "Paris";
    context = [];
    tokens_used = pos 0;
    trace_identity = record {
      request_id = "r1";
      service_trace_id = "s1";
      span_id = "p1";
      ai_trace_id = "a1";
      session_id = "";
      eval_run_id = "";
    };
  }),
)

abbrev metrics : List (Option (Metric ℕ))
metrics = some (record { name = "always"; score = λ s p w. (w, ok one) }) ∷ []

abbrev runner : LocalRunner
runner = record {
  dataset = record { name = "golden"; version = "v1" };
  eval_run_id = "e1";
  thresholds = [];
}

abbrev print : Float64 → String
print x = "1.00"

-- Of the sums of these runs only the order of the numbers matters.
abbrev latest : Float64 → Float64 → Float64
latest a b = b

abbrev average : Float64 → ℕ → Float64
average sum n = sum

abbrev live : ℕ → Option Error
live w = none

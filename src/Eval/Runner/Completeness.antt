-- ===== src/Eval/Runner/Completeness.antt =====
-- A report is complete: it has one evidence for every sample and metric.
use ash_jazz_ai_agent.Prelude.{
  ℕ, String, true, List, [], ◌∷◌, ◌++◌, Option, none, some, ◌≡◌, map, length, All,
}
use ash_jazz_ai_agent.Prelude.Dict.{lookup, text_key}
use ash_jazz_ai_agent.Prelude.Float.{Float64}
use ash_jazz_ai_agent.Prelude.Text.{trim_space}
use ash_jazz_ai_agent.Errors.{Error, Result, ok, err}
use ash_jazz_ai_agent.Eval.Dataset.{Sample, Prediction}
use ash_jazz_ai_agent.Eval.Evidence.{EvaluationEvidence}
use ash_jazz_ai_agent.Eval.Evidence.Gate.{IsGated, Subject, subject_of}
use ash_jazz_ai_agent.Eval.Runner.{LocalRunner, Metric, Report, Totals, evidence_enabled}

abbrev subjects : List EvaluationEvidence → List Subject
subjects evidence = map subject_of evidence

-- The evidence grows by gated ones about these subjects, or the step failed.
abbrev Grows : {W : Type 0} → List Subject → Totals → W × Result Totals → Type 0
Grows k t (w, err e) = Unit {0}
Grows k t (w, ok t') =
    (subjects t'.evidence ≡ subjects t.evidence ++ k)
    × (All IsGated t.evidence → All IsGated t'.evidence)

-- What the evidence of a sample and a metric is about.
abbrev pub subject : LocalRunner → Sample → String → Subject
subject r sample name = (trim_space sample.id, trim_space name, lookup name r.thresholds)

abbrev pub metric_subject : {W : Type 0} → LocalRunner → Sample → Option (Metric W) → Subject
metric_subject r sample none = subject r sample ""
metric_subject r sample (some metric) = subject r sample metric.name

abbrev pub row : {W : Type 0} → LocalRunner → Sample → List (Option (Metric W)) → List Subject
row r sample metrics = map (metric_subject r sample) metrics

-- Every sample with every metric.
abbrev pub table :
    {W : Type 0} → LocalRunner → List (Option (Metric W)) → List Sample → List Subject
table r metrics [] = []
table r metrics (sample ∷ samples) = row r sample metrics ++ table r metrics samples

module _ (print : Float64 → String) (add : Float64 → Float64 → Float64)
    (average : Float64 → ℕ → Float64) (r : LocalRunner) (enabled : evidence_enabled r ≡ true) where
  module _ {W : Type 0} (ctx_err : W → Option Error) where
    module _ (predict : Sample → W → W × Result Prediction)
        (metrics : List (Option (Metric W))) where
      -- What a report that is returned holds.
      abbrev pub IsComplete : List Sample → W × Result Report → Type 0
      IsComplete samples (w, err e) = Unit {0}
      IsComplete samples (w, ok report) =
          (report.sample_count ≡ length samples)
          × (map subject_of report.evidence ≡ table r metrics samples)
          × All IsGated report.evidence

-- ===== src/Eval/Runner.antt =====
-- pkg/ai/eval/runner.go: the local runner. The dataset, the prediction and the metrics act on a world
-- `W`, which also tells the context's error. The machine's sum of two float64, its quotient by a number
-- and the print of a float64 are parameters.
pub mod Completeness
pub mod Tests
use ash_jazz_ai_agent.Prelude.{
  ℕ, String, Bool, true, false, not, List, [], ◌∷◌, ◌++◌, map, Option, none, some, length,
  if◌then◌else◌,
}
use ash_jazz_ai_agent.Prelude.Dict.{Dict, lookup, insert, text_key}
use ash_jazz_ai_agent.Prelude.Float.{Float64}
use ash_jazz_ai_agent.Prelude.Text.{is_empty}
use ash_jazz_ai_agent.Errors.{Error, errorf, wrapf, Result, ok, err}
use ash_jazz_ai_agent.Obs.Identity.{
  CorrelationIdentity, apply_option, apply_correlation_options, with_eval_run_id,
}
use ash_jazz_ai_agent.Eval.Dataset.{
  Sample, Prediction, DatasetIdentity, normalize_dataset_identity, validate_dataset_identity,
}
use ash_jazz_ai_agent.Eval.Evidence.{
  EvaluationEvidence, EvidenceInput, new_evaluation_evidence, zero,
}
use ash_jazz_ai_agent.Eval.Metrics.{clamp01}

pub record LocalRunner : Type 0 where
  pub dataset : DatasetIdentity
  pub eval_run_id : String
  pub thresholds : Dict String Float64

pub record Metric (W : Type 0) : Type 0 where
  pub name : String
  pub score : Sample → Prediction → W → W × Result Float64

pub record Report : Type 0 where
  pub dataset : DatasetIdentity
  pub sample_count : ℕ
  pub scores : Dict String Float64
  pub regressed : List String
  pub evidence : List EvaluationEvidence

unfoldable pub apply_runner_options :
    LocalRunner → List (Option (LocalRunner → LocalRunner)) → LocalRunner
apply_runner_options runner [] = runner
apply_runner_options runner (o ∷ os) = apply_runner_options (apply_option o runner) os

unfoldable pub new_runner :
    DatasetIdentity → List (Option (LocalRunner → LocalRunner)) → LocalRunner
unfolding apply_runner_options
new_runner dataset options =
    apply_runner_options
      (record { dataset = normalize_dataset_identity dataset; eval_run_id = ""; thresholds = [] })
      options

abbrev pub with_run_id : String → LocalRunner → LocalRunner
with_run_id eval_run_id runner = record runner { eval_run_id = eval_run_id }

abbrev pub with_metric_threshold : String → Float64 → LocalRunner → LocalRunner
with_metric_threshold name threshold runner = record runner {
  thresholds = insert name threshold runner.thresholds;
}

-- `evidenceEnabled`, of a runner that is not nil.
abbrev pub evidence_enabled : LocalRunner → Bool
evidence_enabled r = not (is_empty r.eval_run_id)

-- The sums of the scores by metric, and the evidence.
pub record Totals : Type 0 where
  pub sums : Dict String Float64
  pub evidence : List EvaluationEvidence

abbrev pub no_totals : Totals
no_totals = record { sums = []; evidence = [] }

abbrev pub or_zero : Option Float64 → Float64
or_zero none = zero
or_zero (some x) = x

abbrev pub is_nil {ℓ} : {A : Type ℓ} → List A → Bool
is_nil [] = true
is_nil (a ∷ rest) = false

abbrev pub evidence_input :
    LocalRunner → Sample → String → Float64 → CorrelationIdentity → EvidenceInput
evidence_input r sample metric_name score identity = record {
  identity = apply_correlation_options identity (some (with_eval_run_id r.eval_run_id) ∷ []);
  dataset = r.dataset;
  sample_id = sample.id;
  metric_name = metric_name;
  score = score;
  threshold = lookup metric_name r.thresholds;
}

abbrev pub unlinked : Result EvaluationEvidence → Result EvaluationEvidence
unlinked (ok item) = ok item
unlinked (err e) =
    err (wrapf "trace link request_id/ai_trace_id/service_trace_id/span_id is required: %w" [] e)

-- A loop's step, and what follows it unless it failed.
abbrev pub go_on :
    {W : Type 0} → W × Result Totals → (Totals → W → W × Result Totals) → W × Result Totals
go_on (w, err e) rest = (w, err e)
go_on (w, ok totals) rest = rest totals w

module _ (print : Float64 → String) (add : Float64 → Float64 → Float64)
    (average : Float64 → ℕ → Float64) (r : LocalRunner) where
  unfoldable pub new_evidence :
      Sample → String → Float64 → CorrelationIdentity → Result EvaluationEvidence
  unfolding new_evaluation_evidence apply_correlation_options lookup
  new_evidence sample metric_name score identity =
      unlinked (new_evaluation_evidence print (evidence_input r sample metric_name score identity))

  abbrev pub with_item : Sample → String → Totals → Result EvaluationEvidence → Result Totals
  with_item sample name totals (err e) =
      err (wrapf "build evidence for sample %q metric %q: %w" (sample.id ∷ name ∷ []) e)
  with_item sample name totals (ok item) =
      ok (record totals { evidence = totals.evidence ++ item ∷ [] })

  -- What a score adds.
  unfoldable pub add_score : Sample → Prediction → String → Float64 → Totals → Result Totals
  unfolding new_evidence clamp01 insert lookup
  add_score sample prediction name score totals =
      let clamped = clamp01 score in
      let sum = add (or_zero (lookup name totals.sums)) clamped in
      let summed = record totals { sums = insert name sum totals.sums } in
      if evidence_enabled r
      then with_item sample name summed (new_evidence sample name clamped prediction.trace_identity)
      else ok summed

  module _ {W : Type 0} (ctx_err : W → Option Error) where
    abbrev pub scored :
        Sample → Prediction → String → Totals → W × Result Float64 → W × Result Totals
    scored sample prediction name totals (w, err e) =
        (w, err (wrapf "score metric %q for sample %q: %w" (name ∷ sample.id ∷ []) e))
    scored sample prediction name totals (w, ok score) =
        (w, add_score sample prediction name score totals)

    unfoldable pub score_metric :
        Sample → Prediction → Option (Metric W) → Totals → W → W × Result Totals
    unfolding add_score
    score_metric sample prediction none totals w =
        (w, err (errorf "metric is required for sample %q" (sample.id ∷ [])))
    score_metric sample prediction (some metric) totals w =
        if is_empty metric.name
        then (w, err (errorf "metric name is required for sample %q" (sample.id ∷ [])))
        else scored sample prediction metric.name totals (metric.score sample prediction w)

    unfoldable pub score_metrics :
        Sample → Prediction → List (Option (Metric W)) → Totals → W → W × Result Totals
    unfolding score_metric
    score_metrics sample prediction [] totals w = (w, ok totals)
    score_metrics sample prediction (metric ∷ metrics) totals w =
        go_on (score_metric sample prediction metric totals w)
          (λ totals' w'. score_metrics sample prediction metrics totals' w')

    module _ (predict : Sample → W → W × Result Prediction)
        (metrics : List (Option (Metric W))) where
      abbrev pub predicted : Sample → Totals → W × Result Prediction → W × Result Totals
      predicted sample totals (w, err e) =
          (w, err (wrapf "predict sample %q: %w" (sample.id ∷ []) e))
      predicted sample totals (w, ok prediction) = score_metrics sample prediction metrics totals w

      abbrev pub unless_ended : Sample → Totals → W → Option Error → W × Result Totals
      unless_ended sample totals w (some e) = (w, err e)
      unless_ended sample totals w none = predicted sample totals (predict sample w)

      unfoldable pub run_samples : List Sample → Totals → W → W × Result Totals
      unfolding score_metrics
      run_samples [] totals w = (w, ok totals)
      run_samples (sample ∷ samples) totals w =
          go_on (unless_ended sample totals w (ctx_err w))
            (λ totals' w'. run_samples samples totals' w')

      abbrev pub report_of : List Sample → Totals → Report
      report_of samples totals = record {
        dataset = r.dataset;
        sample_count = length samples;
        scores = map (λ entry. (entry.0, average entry.1 (length samples))) totals.sums;
        regressed = [];
        evidence = totals.evidence;
      }

      abbrev pub reported : List Sample → W × Result Totals → W × Result Report
      reported samples (w, err e) = (w, err e)
      reported samples (w, ok totals) = (w, ok (report_of samples totals))

      abbrev pub loaded : W × Result (List Sample) → W × Result Report
      loaded (w, err e) = (w, err (wrapf "load eval dataset: %w" [] e))
      loaded (w, ok samples) =
          if is_nil samples
          then (w, err (errorf "eval dataset samples are required" []))
          else reported samples (run_samples samples no_totals w)

      abbrev unless_unnamed : (W → W × Result (List Sample)) → W → Option Error → W × Result Report
      unless_unnamed load w (some e) = (w, err (wrapf "eval runner dataset identity: %w" [] e))
      unless_unnamed load w none = loaded (load w)

      unfoldable pub run_loaded : (W → W × Result (List Sample)) → W → W × Result Report
      unfolding run_samples validate_dataset_identity
      run_loaded load w =
          if is_nil metrics
          then (w, err (errorf "eval runner metrics are required" []))
          else unless_unnamed load w (validate_dataset_identity r.dataset)

    abbrev given :
        Option (W → W × Result (List Sample))
        → Option (Sample → W → W × Result Prediction)
        → List (Option (Metric W))
        → W
        → W × Result Report
    given none predict metrics w = (w, err (errorf "eval runner dataset is required" []))
    given (some load) none metrics w =
        (w, err (errorf "eval runner predict function is required" []))
    given (some load) (some predict) metrics w = run_loaded predict metrics load w

    abbrev unless_cancelled : Option Error → W × Result Report → W → W × Result Report
    unless_cancelled (some e) made w = (w, err e)
    unless_cancelled none made w = made

    -- `Run`
    unfoldable pub run_eval :
        Option (W → W × Result (List Sample))
        → Option (Sample → W → W × Result Prediction)
        → List (Option (Metric W))
        → W
        → W × Result Report
    unfolding run_loaded
    run_eval load predict metrics w = unless_cancelled (ctx_err w) (given load predict metrics w) w

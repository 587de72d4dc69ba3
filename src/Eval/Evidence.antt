-- ===== src/Eval/Evidence.antt =====
-- pkg/ai/eval/evidence.go. The print of a float64 with two decimals is a parameter, and the copy of a
-- threshold's pointer is the identity on values.
pub mod Gate
pub mod Tests
use ash_jazz_ai_agent.Prelude.{
  String, Bool, true, false, not, ◌&&◌, ◌||◌, List, [], ◌∷◌, Option, none, some, if◌then◌else◌,
}
use ash_jazz_ai_agent.Prelude.Float.{Float64, less, equal}
use ash_jazz_ai_agent.Prelude.Text.{is_empty, is_blank, trim_space, append}
use ash_jazz_ai_agent.Errors.{Error, errorf, wrapf, Result, ok, err}
use ash_jazz_ai_agent.Obs.Identity.{CorrelationIdentity}
use ash_jazz_ai_agent.Eval.Dataset.{
  DatasetIdentity, normalize_dataset_identity, validate_dataset_identity,
}

pub data RegressionStatus : Type 0 where
  passed warning failed : RegressionStatus

pub record EvidenceInput : Type 0 where
  pub identity : CorrelationIdentity
  pub dataset : DatasetIdentity
  pub sample_id : String
  pub metric_name : String
  pub score : Float64
  pub threshold : Option Float64

pub record EvaluationEvidence : Type 0 where
  pub eval_run_id : String
  pub request_id : String
  pub ai_trace_id : String
  pub service_trace_id : String
  pub span_id : String
  pub dataset : DatasetIdentity
  pub sample_id : String
  pub metric_name : String
  pub score : Float64
  pub threshold : Option Float64
  pub regression_status : RegressionStatus
  pub failure_summary : String

abbrev pub zero : Float64
zero = record { bits = 0 }

abbrev pub one : Float64
one = record { bits = 0x3ff0_0000_0000_0000 }

-- `a <= b`, which is false when one of them is no number.
abbrev pub at_most : Float64 → Float64 → Bool
at_most a b = less a b || equal a b

-- `isUnitInterval`
unfoldable pub is_unit_interval : Float64 → Bool
unfolding less equal
is_unit_interval value = at_most zero value && at_most value one

abbrev pub normalize_evidence_input : EvidenceInput → EvidenceInput
normalize_evidence_input input = record input {
  dataset = normalize_dataset_identity input.dataset;
  sample_id = trim_space input.sample_id;
  metric_name = trim_space input.metric_name;
}

abbrev required : String → Option Error
required format = some (errorf format [])

abbrev is_unit_threshold : Option Float64 → Bool
is_unit_threshold none = true
is_unit_threshold (some threshold) = is_unit_interval threshold

-- What follows the test of the dataset.
abbrev pub validate_scored : EvidenceInput → Option Error → Option Error
validate_scored input (some e) = some (wrapf "evaluation evidence dataset identity: %w" [] e)
validate_scored input none =
    if is_empty input.sample_id
    then required "evaluation evidence sample_id is required"
    else if is_empty input.metric_name
    then required "evaluation evidence metric_name is required"
    else if is_unit_interval input.score
    then (if is_unit_threshold input.threshold
        then none
        else required "evaluation evidence threshold must be within [0,1]")
    else required "evaluation evidence score must be within [0,1]"

-- The tests of the identity, in front of the other ones.
abbrev pub validate_linked : CorrelationIdentity → Option Error → Option Error
validate_linked identity rest =
    if is_blank identity.eval_run_id
    then required "evaluation evidence eval_run_id is required"
    else if is_blank identity.request_id
    then required "evaluation evidence request_id is required"
    else if is_blank identity.ai_trace_id
    then required "evaluation evidence ai_trace_id is required"
    else if is_blank identity.service_trace_id
    then required "evaluation evidence service_trace_id is required"
    else if is_blank identity.span_id
    then required "evaluation evidence span_id is required"
    else rest

unfoldable pub validate_evidence_input : EvidenceInput → Option Error
unfolding validate_dataset_identity is_unit_interval
validate_evidence_input input =
    validate_linked input.identity (validate_scored input (validate_dataset_identity input.dataset))

module _ (print : Float64 → String) where
  -- `score >= *threshold` is `*threshold <= score`.
  unfoldable pub classify_regression_status : Float64 → Option Float64 → RegressionStatus × String
  unfolding less equal
  classify_regression_status score none = (RegressionStatus.warning, "")
  classify_regression_status score (some threshold) =
      if at_most threshold score then (RegressionStatus.passed, "") else (
        RegressionStatus.failed,
        append "score " (append (print score) (append " is below threshold " (print threshold))),
      )

  abbrev pub evidence_of : EvidenceInput → EvaluationEvidence
  evidence_of input =
      let (status, summary) = classify_regression_status input.score input.threshold in
      record {
        eval_run_id = input.identity.eval_run_id;
        request_id = input.identity.request_id;
        ai_trace_id = input.identity.ai_trace_id;
        service_trace_id = input.identity.service_trace_id;
        span_id = input.identity.span_id;
        dataset = input.dataset;
        sample_id = input.sample_id;
        metric_name = input.metric_name;
        score = input.score;
        threshold = input.threshold;
        regression_status = status;
        failure_summary = summary;
      }

  abbrev pub unless_invalid : EvidenceInput → Option Error → Result EvaluationEvidence
  unless_invalid input (some e) = err e
  unless_invalid input none = ok (evidence_of input)

  unfoldable pub new_evaluation_evidence : EvidenceInput → Result EvaluationEvidence
  unfolding validate_evidence_input classify_regression_status
  new_evaluation_evidence input =
      let normalized = normalize_evidence_input input in
      unless_invalid normalized (validate_evidence_input normalized)

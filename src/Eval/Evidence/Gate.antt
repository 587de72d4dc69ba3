-- ===== src/Eval/Evidence/Gate.antt =====
-- What an evidence that is made holds.
use ash_jazz_ai_agent.Prelude.{
  String, true, false, Option, none, some, ◌≡◌, refl, sym, ap, subst, arith, if◌then◌else◌,
}
use ash_jazz_ai_agent.Prelude.Float.{Float64}
use ash_jazz_ai_agent.Prelude.Text.{is_empty, is_blank, trim_space}
use ash_jazz_ai_agent.Errors.{Error, ok}
use ash_jazz_ai_agent.Obs.Identity.{CorrelationIdentity}
use ash_jazz_ai_agent.Eval.Dataset.{validate_dataset_identity}
use ash_jazz_ai_agent.Eval.Evidence.{
  EvidenceInput, EvaluationEvidence, RegressionStatus, at_most, is_unit_interval,
  normalize_evidence_input, validate_scored, validate_linked, evidence_of, unless_invalid,
  validate_evidence_input, classify_regression_status, new_evaluation_evidence,
}

-- The evidence leads back to its request and its sample, its score is between 0 and 1, and its status is
-- a warning without a threshold, and otherwise whether the score reaches it.
pub record IsGated (e : EvaluationEvidence) : Type 0 where
  pub has_run : is_blank e.eval_run_id ≡ false
  pub has_request : is_blank e.request_id ≡ false
  pub has_ai_trace : is_blank e.ai_trace_id ≡ false
  pub has_service_trace : is_blank e.service_trace_id ≡ false
  pub has_span : is_blank e.span_id ≡ false
  pub has_sample : is_empty e.sample_id ≡ false
  pub has_metric : is_empty e.metric_name ≡ false
  pub in_unit : is_unit_interval e.score ≡ true
  pub status : e.regression_status ≡ (elim e.threshold [
    | none ↦ RegressionStatus.warning
    | some t ↦ if at_most t e.score then RegressionStatus.passed else RegressionStatus.failed
  ])

-- What passes the part of the validation behind the dataset's.
scored-IsValid :
    (input : EvidenceInput) (v : Option Error)
    → validate_scored input v ≡ none
    → (is_empty input.sample_id ≡ false)
      × (is_empty input.metric_name ≡ false)
      × (is_unit_interval input.score ≡ true)
scored-IsValid input (some e) h = ground (arith, h)
scored-IsValid input none h = ground (arith, h)

linked-IsValid :
    (identity : CorrelationIdentity) (rest : Option Error)
    → validate_linked identity rest ≡ none
    → (is_blank identity.eval_run_id ≡ false)
      × (is_blank identity.request_id ≡ false)
      × (is_blank identity.ai_trace_id ≡ false)
      × (is_blank identity.service_trace_id ≡ false)
      × (is_blank identity.span_id ≡ false)
      × (rest ≡ none)
linked-IsValid identity rest h = ground (arith, h)

-- What an evidence is about: its sample, its metric, and the threshold of the metric.
abbrev pub Subject : Type 0
Subject = String × String × Option Float64

abbrev pub subject_of : EvaluationEvidence → Subject
subject_of e = (e.sample_id, e.metric_name, e.threshold)

module _ (print : Float64 → String) where
  made-evidence_of :
      (input : EvidenceInput) (v : Option Error) (e : EvaluationEvidence)
      → unless_invalid print input v ≡ ok e
      → (v ≡ none) × (evidence_of print input ≡ e)
  made-evidence_of input (some x) e h = ground (arith, h)
  made-evidence_of input none e h = (refl, ground (arith, h))

  status_of :
      (score : Float64) (threshold : Option Float64)
      → (classify_regression_status print score threshold).0 ≡ (elim threshold [
        | none ↦ RegressionStatus.warning
        | some t ↦ if at_most t score then RegressionStatus.passed else RegressionStatus.failed
      ])
  unfolding classify_regression_status
  status_of score none = refl
  status_of score (some t) = ground arith

  evidence_of-IsGated :
      (input : EvidenceInput)
      → validate_evidence_input input ≡ none
      → IsGated (evidence_of print input)
  unfolding validate_evidence_input
  evidence_of-IsGated input h =
      let v = validate_dataset_identity input.dataset in
      let (run, request, ai_trace, service_trace, span, scored) =
        linked-IsValid input.identity (validate_scored input v) h in
      let (sample, metric, unit) = scored-IsValid input v scored in
      record {
        has_run = run;
        has_request = request;
        has_ai_trace = ai_trace;
        has_service_trace = service_trace;
        has_span = span;
        has_sample = sample;
        has_metric = metric;
        in_unit = unit;
        status = status_of input.score input.threshold;
      }

  -- An evidence that is made leads back to its request and its sample, has a score between 0 and 1, and
  -- a status that is a warning without a threshold and otherwise says whether the score reaches it.
  pub new_evaluation_evidence-IsGated :
      (input : EvidenceInput) (e : EvaluationEvidence)
      → new_evaluation_evidence print input ≡ ok e
      → IsGated e
  unfolding new_evaluation_evidence
  new_evaluation_evidence-IsGated input e made =
      let normalized = normalize_evidence_input input in
      let (valid, same) = made-evidence_of normalized (validate_evidence_input normalized) e made in
      subst IsGated same (evidence_of-IsGated normalized valid)

  pub subject_of-new_evaluation_evidence :
      (input : EvidenceInput) (e : EvaluationEvidence)
      → new_evaluation_evidence print input ≡ ok e
      → subject_of e ≡ (trim_space input.sample_id, trim_space input.metric_name, input.threshold)
  unfolding new_evaluation_evidence
  subject_of-new_evaluation_evidence input e made =
      let normalized = normalize_evidence_input input in
      let (_, same) = made-evidence_of normalized (validate_evidence_input normalized) e made in
      sym (ap subject_of same)

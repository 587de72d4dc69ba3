-- ===== src/Eval/Evidence/Tests.antt =====
-- An evidence below its threshold.
use ash_jazz_ai_agent.Prelude.{String, some, ◌≡◌, refl}
use ash_jazz_ai_agent.Prelude.Float.{Float64, is_nan, magnitude}
use ash_jazz_ai_agent.Prelude.Text.{trim_space}
use ash_jazz_ai_agent.Errors.{ok}
use ash_jazz_ai_agent.Eval.Evidence.{
  EvidenceInput, EvaluationEvidence, zero, one, evidence_of, new_evaluation_evidence,
}

abbrev print : Float64 → String
print x = "0.00"

abbrev input : EvidenceInput
input = record {
  identity = record {
    request_id = "r1";
    service_trace_id = "s1";
    span_id = "p1";
    ai_trace_id = "a1";
    session_id = "";
    eval_run_id = "e1";
  };
  dataset = record { name = "golden"; version = "v1" };
  sample_id = "m1";
  metric_name = "exact_match";
  score = zero;
  threshold = some one;
}

abbrev evidence : EvaluationEvidence
evidence = evidence_of print input

is_made : new_evaluation_evidence print input ≡ ok evidence
unfolding new_evaluation_evidence trim_space is_nan magnitude
is_made = refl

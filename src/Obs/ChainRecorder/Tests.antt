-- ===== src/Obs/ChainRecorder/Tests.antt =====
-- Runs of the recorder, and its theorems at concrete inputs.
use ash_jazz_ai_agent.Prelude.{String, [], ◌∷◌, none, some, ◌≡◌, refl}
use ash_jazz_ai_agent.Prelude.Text.{trim_space}
use ash_jazz_ai_agent.Obs.ChainRecorder.{ChainInput, new_recorder, validate_input, record_chain}
use ash_jazz_ai_agent.Obs.ChainRecorder.Lookup.{IsRecorded, record_chain-IsRecorded}

abbrev input : String → ChainInput
input request_id = record {
  identity = record {
    request_id = request_id;
    service_trace_id = "s1";
    span_id = "p1";
    ai_trace_id = "a1";
    session_id = "";
    eval_run_id = "";
  };
  feature = "chat";
  started_at = 1;
  ended_at = 2;
  outcome_status = "success";
  failure_status = "";
  outcome_explanation = "";
  service_stages = [];
  ai_observations = [];
  eval_evidence =
      record {
        eval_run_id = "e1";
        sample_id = "m1";
        metric_name = "recall";
        request_id = request_id;
        ai_trace_id = "a1";
      }
      ∷ [];
}

-- A padded request_id passes the validation.
padded_is_accepted : validate_input none (input " r1") ≡ none
unfolding validate_input trim_space
padded_is_accepted = refl

record_chain-IsRecorded_example :
    IsRecorded (input "r1") new_recorder " r1 " (record_chain none (input "r1") (some new_recorder))
record_chain-IsRecorded_example = record_chain-IsRecorded none (input "r1") new_recorder " r1 "

-- ===== src/Obs/ChainRecorder.antt =====
-- pkg/ai/obs/chain_recorder.go. The lock makes each operation one function; copies of slices are the
-- identity on values, and a nil slice is an empty one. Times are nanoseconds.
pub mod Lookup
pub mod Tests
use ash_jazz_ai_agent.Prelude.{
  ℕ, String, Bool, true, false, ◌&&◌, ◌||◌, List, [], ◌∷◌, ◌++◌, map, Option, none, some,
  if◌then◌else◌,
}
use ash_jazz_ai_agent.Prelude.Dict.{Dict, lookup, insert, text_key}
use ash_jazz_ai_agent.Prelude.Int.{ℤ}
use ash_jazz_ai_agent.Prelude.Text.{append, trim_space, is_blank, text_beq}
use ash_jazz_ai_agent.Errors.{Error, errorf, Result, ok, err}
use ash_jazz_ai_agent.Obs.Identity.{CorrelationIdentity}
use ash_jazz_ai_agent.Obs.Trace.{ObservationType, observation_text}

pub record ServiceStage : Type 0 where
  pub name : String
  pub component : String
  pub request_id : String
  pub service_trace_id : String
  pub span_id : String
  pub parent_span_id : String
  pub status : String
  pub error_class : String
  pub latency_ms : ℤ

pub record AiStage : Type 0 where
  pub observation_id : String
  pub observation_type : ObservationType
  pub request_id : String
  pub service_trace_id : String
  pub parent_span_id : String
  pub ai_trace_id : String
  pub outcome_status : String
  pub failure_status : String

pub record EvalEvidence : Type 0 where
  pub eval_run_id : String
  pub sample_id : String
  pub metric_name : String
  pub request_id : String
  pub ai_trace_id : String

pub record ChainInput : Type 0 where
  pub identity : CorrelationIdentity
  pub feature : String
  pub started_at : ℕ
  pub ended_at : ℕ
  pub outcome_status : String
  pub failure_status : String
  pub outcome_explanation : String
  pub service_stages : List ServiceStage
  pub ai_observations : List AiStage
  pub eval_evidence : List EvalEvidence

pub record Chain : Type 0 where
  pub request_id : String
  pub service_trace_id : String
  pub root_span_id : String
  pub root_ai_trace_id : String
  pub session_id : String
  pub eval_run_id : String
  pub feature : String
  pub started_at : ℕ
  pub ended_at : ℕ
  pub outcome_status : String
  pub failure_status : String
  pub outcome_explanation : String
  pub stage_refs : List String
  pub service_stages : List ServiceStage
  pub ai_observations : List AiStage
  pub eval_evidence : List EvalEvidence

abbrev pub Recorder : Type 0
Recorder = Dict String Chain

abbrev pub new_recorder : Recorder
new_recorder = []

-- `requiresOutcomeExplanation`
unfoldable pub requires_outcome_explanation : String → Bool
requires_outcome_explanation outcome =
    let s = trim_space outcome in
    text_beq s "failure" || (text_beq s "terminated" || text_beq s "degraded")

-- Is the outcome one of the four that `validateRequestObservationOutcome` accepts?
unfoldable pub is_supported_outcome : String → Bool
is_supported_outcome outcome =
    let s = trim_space outcome in
    text_beq s "success"
    || (text_beq s "failure" || (text_beq s "terminated" || text_beq s "degraded"))

abbrev pub is_nil {ℓ} : {A : Type ℓ} → List A → Bool
is_nil [] = true
is_nil (a ∷ rest) = false

abbrev required : String → Option Error
required format = some (errorf format [])

unfoldable pub validate_input : Option Error → ChainInput → Option Error
unfolding is_supported_outcome requires_outcome_explanation
validate_input (some e) input = some e
validate_input none input =
    if is_blank input.identity.request_id
    then required "request observation chain request_id is required"
    else if is_blank input.identity.service_trace_id
    then required "request observation chain service_trace_id is required"
    else if is_blank input.identity.span_id
    then required "request observation chain root span_id is required"
    else if is_blank input.identity.ai_trace_id
    then required "request observation chain ai_trace_id is required"
    else if is_blank input.feature
    then required "request observation chain feature is required"
    else if is_nil input.service_stages
        && (is_nil input.ai_observations && is_nil input.eval_evidence)
    then required "request observation chain requires at least one stage"
    else if is_supported_outcome input.outcome_status
    then (if requires_outcome_explanation input.outcome_status && is_blank input.outcome_explanation
        then some (
            errorf "request observation chain outcome explanation is required for %q"
              (input.outcome_status ∷ []))
        else none)
    else some (
        errorf "request observation chain outcome_status %q is not supported"
          (input.outcome_status ∷ []))

abbrev pub service_ref : ServiceStage → String
service_ref stage = append "service:" stage.name

abbrev pub ai_ref : AiStage → String
ai_ref stage =
    append "ai:"
      (append (observation_text stage.observation_type) (append ":" stage.observation_id))

abbrev pub eval_ref : EvalEvidence → String
eval_ref evidence = append "eval:" (append evidence.metric_name (append ":" evidence.sample_id))

unfoldable pub build_stage_refs : List ServiceStage → List AiStage → List EvalEvidence → List String
build_stage_refs stages observations evidence =
    map service_ref stages ++ map ai_ref observations ++ map eval_ref evidence

unfoldable pub build_chain : ChainInput → Chain
unfolding build_stage_refs
build_chain input = record {
  request_id = input.identity.request_id;
  service_trace_id = input.identity.service_trace_id;
  root_span_id = input.identity.span_id;
  root_ai_trace_id = input.identity.ai_trace_id;
  session_id = input.identity.session_id;
  eval_run_id = input.identity.eval_run_id;
  feature = input.feature;
  started_at = input.started_at;
  ended_at = input.ended_at;
  outcome_status = input.outcome_status;
  failure_status = input.failure_status;
  outcome_explanation = input.outcome_explanation;
  stage_refs = build_stage_refs input.service_stages input.ai_observations input.eval_evidence;
  service_stages = input.service_stages;
  ai_observations = input.ai_observations;
  eval_evidence = input.eval_evidence;
}

-- A nil recorder builds the chain, and keeps nothing.
abbrev store_chain : Option Recorder → Chain → Option Recorder
store_chain none chain = none
store_chain (some r) chain = some (insert chain.request_id chain r)

abbrev record_valid : Option Recorder → ChainInput → Option Error → Option Recorder × Result Chain
record_valid r input (some e) = (r, err e)
record_valid r input none = (store_chain r (build_chain input), ok (build_chain input))

-- `Record`: `cancelled` is ctx.Err().
unfoldable pub record_chain :
    Option Error → ChainInput → Option Recorder → Option Recorder × Result Chain
unfolding insert
record_chain cancelled input r = record_valid r input (validate_input cancelled input)

-- `FindByRequestID`
unfoldable pub find_by_request_id : Option Recorder → String → Option Chain
unfolding lookup
find_by_request_id none request_id = none
find_by_request_id (some r) request_id = lookup (trim_space request_id) r

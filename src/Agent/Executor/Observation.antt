-- ===== src/Agent/Executor/Observation.antt =====
-- pkg/ai/agent/executor.go: the traces that Run records. The Go struct agentObservation is a record,
-- and its two builders fill it from a step or from a tool call.
use ash_jazz_ai_agent.Prelude.{ℕ, String, Bool, [], ◌∷◌, Option, none, some, if◌then◌else◌}
use ash_jazz_ai_agent.Prelude.Int.{ℤ, pos, sub_time, milliseconds}
use ash_jazz_ai_agent.Prelude.Text.{is_empty, is_blank}
use ash_jazz_ai_agent.Llm.{ToolCall}
use ash_jazz_ai_agent.Obs.Identity.{CorrelationIdentity}
use ash_jazz_ai_agent.Obs.Summary.{
  empty_summary, new_safe_summary, with_summary_category, with_summary_count, with_summary_status,
  with_summary_error_class,
}
use ash_jazz_ai_agent.Obs.Trace.{
  Trace, ObservationType, FailureStatus, failure_text, new_trace, with_correlation_identity,
  with_observation_type, with_latency, with_safe_summaries, with_outcome,
  record_with_export_failure_protection,
}
use ash_jazz_ai_agent.Agent.Tool.{StepResult, Termination}
use ash_jazz_ai_agent.Agent.Executor.{NativeExecutor, Context}

pub record AgentObservation : Type 0 where
  pub step_index : ℤ
  pub tool_call_id : String
  pub tool_name : String
  pub termination_reason : String
  pub tool_summary_status : String
  pub outcome_status : String
  pub failure_status : String
  pub loop_detected : Bool
  pub budget_exceeded : Bool
  pub started_at : ℕ
  pub ended_at : ℕ

abbrev pub failure_status_for_termination : Termination → String
failure_status_for_termination Termination.loop_detected = failure_text FailureStatus.loop_detected
failure_status_for_termination Termination.budget_exceeded =
    failure_text FailureStatus.budget_exceeded
failure_status_for_termination Termination.step_timeout = failure_text FailureStatus.timeout
failure_status_for_termination _ = ""

unfoldable pub tool_summary_status : AgentObservation → String
tool_summary_status o =
    if is_empty o.tool_summary_status then o.termination_reason else o.tool_summary_status

unfoldable pub tool_summary_count : String → ℤ
tool_summary_count tool_name = if is_blank tool_name then pos 0 else pos 1

unfoldable pub observation_trace : CorrelationIdentity → String → AgentObservation → Trace
unfolding new_trace new_safe_summary tool_summary_status tool_summary_count
observation_trace identity feature o =
    let summary = new_safe_summary (
      some (with_summary_category o.tool_name)
      ∷ some (with_summary_count (tool_summary_count o.tool_name))
      ∷ some (with_summary_status (tool_summary_status o))
      ∷ some (with_summary_error_class o.failure_status)
      ∷ []) in
    let trace = new_trace identity.ai_trace_id feature o.ended_at (
      some (with_correlation_identity identity)
      ∷ some (with_observation_type ObservationType.agent)
      ∷ some (with_latency (pos 0) (milliseconds (sub_time o.ended_at o.started_at)))
      ∷ some (with_safe_summaries empty_summary empty_summary empty_summary summary)
      ∷ some (with_outcome o.outcome_status)
      ∷ []) in
    record trace {
      failure_status = o.failure_status;
      agent_step_index = o.step_index;
      tool_call_id = o.tool_call_id;
      tool_name = o.tool_name;
      termination_reason = o.termination_reason;
      loop_detected = o.loop_detected;
      budget_exceeded = o.budget_exceeded;
    }

module _ {W Stream : Type 0} (executor : NativeExecutor W Stream) (ctx : Context W) where
  abbrev record_identified : AgentObservation → Option CorrelationIdentity → W → W
  record_identified o none w = w
  record_identified o (some identity) w =
      if is_blank identity.ai_trace_id
      then w
      else (record_with_export_failure_protection executor.tracer
          (observation_trace identity executor.feature o) w).0

  -- Nothing is recorded without a tracer, a feature and the name of an AI trace.
  unfoldable pub record_agent_observation : AgentObservation → W → W
  unfolding record_with_export_failure_protection observation_trace
  record_agent_observation o w = elim executor.tracer [
    | none ↦ w
    | some _ ↦ if is_blank executor.feature then w else record_identified o ctx.identity w
  ]

  -- recordAgentStepObservation, called with `e.now()` as the end.
  unfoldable pub record_agent_step_observation :
      StepResult → ℤ → String → String → String → String → Bool → Bool → ℕ → W → W
  unfolding record_agent_observation
  record_agent_step_observation step index reason summary outcome failure loops exceeds started w =
      record_agent_observation
        (record {
          step_index = index;
          tool_call_id = step.tool_call.id;
          tool_name = step.tool_call.name;
          termination_reason = reason;
          tool_summary_status = summary;
          outcome_status = outcome;
          failure_status = failure;
          loop_detected = loops;
          budget_exceeded = exceeds;
          started_at = started;
          ended_at = executor.now w;
        })
        w

  -- recordAgentToolCallTermination, as its one call has it: the repeated call's, one step on.
  unfoldable pub record_agent_tool_call_termination :
      ToolCall → ℤ → String → String → String → String → Bool → Bool → ℕ → W → W
  unfolding record_agent_observation
  record_agent_tool_call_termination call index reason summary outcome failure loops exceeds started
        w =
      record_agent_observation
        (record {
          step_index = index;
          tool_call_id = call.id;
          tool_name = call.name;
          termination_reason = reason;
          tool_summary_status = summary;
          outcome_status = outcome;
          failure_status = failure;
          loop_detected = loops;
          budget_exceeded = exceeds;
          started_at = started;
          ended_at = executor.now w;
        })
        w

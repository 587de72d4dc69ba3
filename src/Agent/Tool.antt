-- ===== src/Agent/Tool.antt =====
-- pkg/ai/agent/agent.go: the types that the registry and the executor exchange. Durations and counts
-- are Go ints.
use ash_jazz_ai_agent.Prelude.{ℕ, String, true, List, Option}
use ash_jazz_ai_agent.Prelude.Int.{ℤ}
use ash_jazz_ai_agent.Errors.{Error}
use ash_jazz_ai_agent.Json.{Map}
use ash_jazz_ai_agent.Llm
use ash_jazz_ai_agent.Llm.{ToolCall, ToolResult}

-- agent.Tool: an interface. Its answers may change with the world, and `invoke` acts on it; it gets
-- the time at which its context expires, and returns the content and an error that may be nil.
pub record Tool (W : Type 0) : Type 0 where
  pub name : W → String
  pub description : W → String
  pub parameters : W → Map
  pub invoke : ℕ → Map → W → W × String × Option Error

pub record StepResult : Type 0 where
  pub tool_call : ToolCall
  pub result : ToolResult
  pub latency_ms : ℤ

pub record Limit : Type 0 where
  pub max_steps : ℤ
  pub step_timeout_s : ℤ
  pub token_budget : ℤ

pub record Request (W : Type 0) : Type 0 where
  pub query : String
  pub model : String
  pub tools : List (Tool W)
  pub limit : Limit

-- Result.TerminatedBy is a string: one of the five constants, or empty (`running`).
pub data Termination : Type 0 where
  running finished max_steps loop_detected step_timeout budget_exceeded : Termination

abbrev pub termination_text : Termination → String
termination_text Termination.running = ""
termination_text Termination.finished = "finished"
termination_text Termination.max_steps = "max_steps"
termination_text Termination.loop_detected = "loop_detected"
termination_text Termination.step_timeout = "step_timeout"
termination_text Termination.budget_exceeded = "budget_exceeded"

pub record Result : Type 0 where
  pub answer : String
  pub steps : List StepResult
  pub steps_taken : ℤ
  pub tokens_used : ℤ
  pub terminated_by : Termination

unfoldable pub to_llm_tool : {W : Type 0} → Tool W → W → Llm.Tool
to_llm_tool tool w = record {
  name = tool.name w;
  description = tool.description w;
  parameters = tool.parameters w;
  strict = true;
}

-- ===== src/Agent/Executor.antt =====
-- pkg/ai/agent/executor.go: what Run calls. A panic of a tool or of the provider leaves Run, and is
-- not modelled.
pub mod Observation
pub mod Loop
pub mod Invariant
pub mod Preservation
pub mod Guarantees
pub mod Tests
use ash_jazz_ai_agent.Prelude.{
  ℕ, String, Bool, true, false, ◌&&◌, ◌||◌, not, List, [], ◌∷◌, ◌++◌, ◌*◌, Option, none, some,
  length, if◌then◌else◌,
}
use ash_jazz_ai_agent.Prelude.Int.{
  ℤ, pos, pos_part, ◌+ℤ◌, wrap_int, sub_time, add_time, milliseconds, not_positive, ltb_ℤ,
}
use ash_jazz_ai_agent.Prelude.Text.{text_beq}
use ash_jazz_ai_agent.Errors
use ash_jazz_ai_agent.Errors.{Error, errorf, wrapf}
use ash_jazz_ai_agent.Json.{deep_equal_map, clone_map}
use ash_jazz_ai_agent.Llm.{Message, Role, Provider, ToolCall, ToolResult}
use ash_jazz_ai_agent.Obs.Identity.{CorrelationIdentity}
use ash_jazz_ai_agent.Obs.Trace.{Tracer}
use ash_jazz_ai_agent.Agent.Tool.{StepResult, Limit, Termination}
use ash_jazz_ai_agent.Agent.Registry.{Registry, get}

-- What the world tells of time.Now and of the context's Err, and the identity that the context holds.
pub record Context (W : Type 0) : Type 0 where
  pub now : W → ℕ
  pub err : W → Option Error
  pub identity : Option CorrelationIdentity

-- The interface values of the Go struct may be nil; `now` is the injected clock, which is never nil
-- after NewExecutor.
pub record NativeExecutor (W Stream : Type 0) : Type 0 where
  pub provider : Option (Provider W Stream)
  pub registry : Option (Registry W)
  pub tracer : Option (Tracer W)
  pub feature : String
  pub now : W → ℕ

module _ {W Stream : Type 0} where
  -- The first nil argument is named; after it the parts are there.
  unfoldable pub validate_executor :
      Option (NativeExecutor W Stream) → Errors.Result (Provider W Stream × Registry W)
  validate_executor none = Errors.err (errorf "agent executor is required" [])
  validate_executor (some executor) = elim executor.provider [
    | none ↦ Errors.err (errorf "agent executor provider is required" [])
    | some provider ↦ elim executor.registry [
      | none ↦ Errors.err (errorf "agent executor registry is required" [])
      | some registry ↦ Errors.ok (provider, registry)
    ]
  ]

abbrev default_max_steps : ℤ
default_max_steps = pos 10

abbrev default_step_timeout_s : ℤ
default_step_timeout_s = pos 30

unfoldable pub normalize_limit : Limit → Limit
normalize_limit limit = record limit {
  max_steps = if not_positive limit.max_steps then default_max_steps else limit.max_steps;
  step_timeout_s =
      if not_positive limit.step_timeout_s then default_step_timeout_s else limit.step_timeout_s;
}

unfoldable pub exceeded_token_budget : ℤ → ℤ → Bool
exceeded_token_budget tokens_used token_budget =
    ltb_ℤ (pos 0) token_budget && ltb_ℤ token_budget tokens_used

unfoldable pub same_tool_call : ToolCall → ToolCall → Bool
same_tool_call previous current =
    text_beq previous.name current.name && deep_equal_map previous.arguments current.arguments

abbrev pub tool_result_message : ToolResult → Message
tool_result_message result = record {
  role = Role.tool;
  content = result.content;
  name = result.name;
  tool_call_id = result.tool_call_id;
}

abbrev pub clone_tool_call : ToolCall → ToolCall
clone_tool_call source = record {
  id = source.id;
  name = source.name;
  arguments = clone_map source.arguments;
}

abbrev pub clone_step_result : StepResult → StepResult
clone_step_result source = record {
  tool_call = clone_tool_call source.tool_call;
  result = source.result;
  latency_ms = source.latency_ms;
}

-- `time.Duration(limit.StepTimeoutS) * time.Second`, which wraps.
abbrev step_duration : Limit → ℤ
step_duration limit = wrap_int (pos (pos_part limit.step_timeout_s * 1_000_000_000))

abbrev is_some {ℓ} : {A : Type ℓ} → Option A → Bool
is_some none = false
is_some (some a) = true

module _ {W : Type 0} (ctx : Context W) where
  -- `stepCtx.Err() != nil`: the parent is done, or the deadline is not after now.
  abbrev pub is_done : ℕ → W → Bool
  is_done deadline w = is_some (ctx.err w) || not (ltb_ℤ (pos (ctx.now w)) (pos deadline))

  abbrev made_step : ToolCall → String → Bool → ℤ → StepResult
  made_step call content is_error latency = record {
    tool_call = clone_tool_call call;
    result = record {
      tool_call_id = call.id;
      name = call.name;
      content = content;
      is_error = is_error;
    };
    latency_ms = latency;
  }

  abbrev classify_invocation :
      ToolCall → StepResult → Option Error → Bool → Errors.Result (StepResult × Termination)
  classify_invocation call step none done = Errors.ok (step, Termination.running)
  classify_invocation call step (some e) true = Errors.ok (step, Termination.step_timeout)
  classify_invocation call step (some e) false =
      Errors.err (wrapf "invoke tool %q: %w" (call.name ∷ []) e)

  -- The tool is looked up, and runs on a copy of the arguments under its own deadline.
  unfoldable pub invoke_tool :
      Registry W → ToolCall → Limit → W → W × Errors.Result (StepResult × Termination)
  unfolding get
  invoke_tool registry call limit w = elim (get registry call.name) [
    | Errors.err e ↦ (w, Errors.err e)
    | Errors.ok registered ↦
        let deadline = add_time (ctx.now w) (step_duration limit) in
        let (w', content, e) = registered.tool.invoke deadline (clone_map call.arguments) w in
        let latency = milliseconds (sub_time (ctx.now w') (ctx.now w)) in
        let step = made_step call content (is_some e) latency in
        (w', classify_invocation call step e (is_done deadline w'))
  ]

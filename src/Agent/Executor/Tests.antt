-- ===== src/Agent/Executor/Tests.antt =====
-- A run of the executor whose provider asks for two different calls, then repeats the second.
use ash_jazz_ai_agent.Prelude.{
  ℕ, zero, suc, String, false, List, [], ◌∷◌, Option, none, some, ◌≡◌, ◌≢◌, refl, arith, ◌*◌,
  length, if◌then◌else◌,
}
use ash_jazz_ai_agent.Prelude.Int.{
  pos, wrap_int, ◌+ℤ◌, sub_time, add_time, milliseconds, ◌≤ℤ◌, not_positive,
}
use ash_jazz_ai_agent.Json.{Value, Fields, get, deep_equal, clone_value}
use ash_jazz_ai_agent.Prelude.Dict.{lookup}
use ash_jazz_ai_agent.Prelude.Text.{trim_space}
use ash_jazz_ai_agent.Llm.{ToolCall, ChatResponse, FinishReason, no_capabilities}
use ash_jazz_ai_agent.Agent.Tool.{Tool, Request, Result, StepResult, Termination}
use ash_jazz_ai_agent.Agent.Registry.{Registry, register, new_registry}
use ash_jazz_ai_agent.Agent.Executor.{
  NativeExecutor, Context, normalize_limit, exceeded_token_budget, same_tool_call,
}
use ash_jazz_ai_agent.Agent.Executor.Loop.{Outcome, run}
use ash_jazz_ai_agent.Agent.Executor.Observation.{record_agent_step_observation}
use ash_jazz_ai_agent.Agent.Executor.Invariant.{IsReason}
use ash_jazz_ai_agent.Agent.Executor.Guarantees.{
  run-ends, run-max_steps, run-token_budget, run-IsReason,
}

abbrev search_tool : Tool ℕ
search_tool = record {
  name = λ _. "search";
  description = λ _. "finds";
  parameters = λ _. some (
      Fields.field "type" (Value.text "object")
        (Fields.field "properties" (Value.object Fields.no_field) Fields.no_field));
  invoke = λ deadline args w. (suc w, "found", none);
}

abbrev registry : Registry ℕ
registry = (register (some search_tool) 0 new_registry).0

abbrev search_for : String → ToolCall
search_for query = record {
  id = query;
  name = "search";
  arguments = some (Fields.field "q" (Value.text query) Fields.no_field);
}

abbrev asking : List ToolCall → ChatResponse
asking calls = record {
  content = "";
  model = "m";
  usage = record {
    input_tokens = pos 4;
    output_tokens = pos 1;
    reasoning_tokens = pos 0;
    cache_read_tokens = pos 0;
    cache_write_tokens = pos 0;
    total_tokens = pos 5;
  };
  finish_reason = FinishReason.tool_calls;
  tool_calls = calls;
}

abbrev reply : ℕ → ChatResponse
reply zero = asking (search_for "x" ∷ search_for "y" ∷ [])
reply (suc w) = asking (search_for "y" ∷ [])

abbrev executor : Option (NativeExecutor ℕ ℕ)
executor = some (record {
  provider = some (record {
    name = "fake";
    capabilities = λ _. no_capabilities;
    chat = λ _ w. (w, some (reply w), none);
    chat_stream = λ _ w. (w, none, none);
  });
  registry = some registry;
  tracer = none;
  feature = "";
  now = λ w. w * 1_000_000;
})

abbrev context : Context ℕ
context = record { now = λ w. w * 1_000_000; err = λ _. none; identity = none }

abbrev request : Request ℕ
request = record {
  query = "find it";
  model = "m";
  tools = [];
  limit = record { max_steps = pos 5; step_timeout_s = pos 0; token_budget = pos 100 };
}

abbrev step_for : String → StepResult
step_for query = record {
  tool_call = search_for query;
  result = record { tool_call_id = query; name = "search"; content = "found"; is_error = false };
  latency_ms = pos 1;
}

abbrev looped : Result
looped = record {
  answer = "";
  steps = step_for "x" ∷ step_for "y" ∷ [];
  steps_taken = pos 2;
  tokens_used = pos 10;
  terminated_by = Termination.loop_detected;
}

ends_looped : (run executor context request 0).1 ≡ Outcome.returned looped none
unfolding run exceeded_token_budget same_tool_call wrap_int ◌+ℤ◌ sub_time add_time milliseconds get
    deep_equal clone_value lookup trim_space register record_agent_step_observation
ends_looped = refl

run-ends_example : (run executor context request 0).1 ≢ Outcome.out_of_fuel
run-ends_example = run-ends executor context request 0

run-max_steps_example :
    (looped.steps_taken ≡ pos (length looped.steps))
    × (looped.steps_taken
        ≤ℤ (if not_positive request.limit.max_steps then pos 10 else request.limit.max_steps))
run-max_steps_example = run-max_steps executor context request 0 looped none ends_looped

run-token_budget_example : looped.tokens_used ≤ℤ request.limit.token_budget
run-token_budget_example =
    run-token_budget executor context request 0 looped none ends_looped refl other
  where
    other : looped.terminated_by ≢ Termination.budget_exceeded
    other h = ground arith

run-IsReason_example : IsReason (normalize_limit request.limit) looped looped.terminated_by none
run-IsReason_example = run-IsReason executor context request 0 looped none ends_looped

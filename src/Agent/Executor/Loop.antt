-- ===== src/Agent/Executor/Loop.antt =====
-- pkg/ai/agent/executor.go: (*NativeExecutor).Run. The outer loop asks the provider, the inner one
-- goes through the tool calls of a response; what Run keeps between them is the record `Run`.
use ash_jazz_ai_agent.Prelude.{
  ℕ, suc, zero, String, Bool, true, false, List, [], ◌∷◌, ◌++◌, Option, none, some, length,
  if◌then◌else◌,
}
use ash_jazz_ai_agent.Prelude.Int.{ℤ, pos, pos_part, ◌+ℤ◌, wrap_int, leb_ℤ}
use ash_jazz_ai_agent.Errors
use ash_jazz_ai_agent.Errors.{Error, errorf, wrapf}
use ash_jazz_ai_agent.Llm.{
  Message, Role, ChatRequest, ChatResponse, is_tool_call, Provider, ToolCall,
}
use ash_jazz_ai_agent.Obs.Trace.{FailureStatus, failure_text}
use ash_jazz_ai_agent.Agent.Tool.{StepResult, Limit, Request, Result, Termination, termination_text}
use ash_jazz_ai_agent.Agent.Registry.{Registry, llm_tools}
use ash_jazz_ai_agent.Agent.Executor.{
  NativeExecutor, Context, validate_executor, normalize_limit, exceeded_token_budget,
  same_tool_call, tool_result_message, clone_tool_call, clone_step_result, invoke_tool,
}
use ash_jazz_ai_agent.Agent.Executor.Observation.{
  record_agent_observation, record_agent_step_observation, record_agent_tool_call_termination,
  failure_status_for_termination,
}

-- How Run ends: it returns its result and an error that may be nil; it dereferences a nil response
-- that came without an error; or the model's fuel is gone, which `run` never meets.
pub data Outcome : Type 0 where
  returned : Result → Option Error → Outcome
  panicked : Outcome
  out_of_fuel : Outcome

-- Run's local variables.
pub record Run : Type 0 where
  pub messages : List Message
  pub result : Result
  pub last_call : Option ToolCall
  pub pending_step : Option StepResult

pub data Progress : Type 0 where
  next : Run → Progress
  stopped : Outcome → Progress

abbrev pub empty_result : Result
empty_result = record {
  answer = "";
  steps = [];
  steps_taken = pos 0;
  tokens_used = pos 0;
  terminated_by = Termination.running;
}

abbrev pub ended : Result → Termination → Outcome
ended result reason = Outcome.returned (record result { terminated_by = reason }) none

-- `lastCall != nil && sameToolCall(*lastCall, toolCall)`
abbrev pub is_repeated : Option ToolCall → ToolCall → Bool
is_repeated none call = false
is_repeated (some last) call = same_tool_call last call

abbrev pub append_step : Result → StepResult → Result
append_step result step =
    let steps = result.steps ++ step ∷ [] in
    record result { steps = steps; steps_taken = pos (length steps) }

-- What follows a pass that does not end the run.
abbrev pub go_on : {W : Type 0} → W × Progress → (Run → W → W × Progress) → W × Progress
go_on (w, Progress.stopped o) rest = (w, Progress.stopped o)
go_on (w, Progress.next run) rest = rest run w

abbrev pub conclude : {W : Type 0} → W × Progress → (Run → W → W × Outcome) → W × Outcome
conclude (w, Progress.stopped o) rest = (w, o)
conclude (w, Progress.next run) rest = rest run w

module _ {W Stream : Type 0} (executor : NativeExecutor W Stream) (ctx : Context W)
    (registry : Registry W) (limit : Limit) (started : ℕ) where
  -- The pending step, which did not end the run, is recorded as a success.
  abbrev record_pending : Option StepResult → ℤ → W → W
  record_pending none taken w = w
  record_pending (some step) taken w =
      record_agent_step_observation executor ctx step taken "success" "success" "success" "" false
        false started w

  abbrev record_failed : StepResult → ℤ → Termination → String → W → W
  record_failed step taken reason failure w =
      let text = termination_text reason in
      record_agent_step_observation executor ctx step taken text text "failure" failure false false
        started w

  abbrev record_loop : ToolCall → ℤ → W → W
  record_loop call taken w =
      let text = termination_text Termination.loop_detected in
      record_agent_tool_call_termination executor ctx call (wrap_int (taken +ℤ pos 1)) text text
        "failure" (failure_text FailureStatus.loop_detected) true false started w

  -- A step was made: it may have timed out, it may be the last that is allowed, or the run goes on.
  abbrev pub settle_step : Run → ToolCall → StepResult → Termination → W → W × Progress
  settle_step run call step Termination.running w =
      let result = append_step run.result step in
      if leb_ℤ limit.max_steps result.steps_taken
      then (
        record_failed step result.steps_taken Termination.max_steps "" w,
        Progress.stopped (ended result Termination.max_steps),
      )
      else (
        w,
        Progress.next (record {
          messages = run.messages ++ tool_result_message step.result ∷ [];
          result = result;
          last_call = some (clone_tool_call call);
          pending_step = some (clone_step_result step);
        }),
      )
  settle_step run call step reason w =
      let result = append_step run.result step in
      (
        record_failed step result.steps_taken reason (failure_status_for_termination reason) w,
        Progress.stopped (ended result reason),
      )

  abbrev pub settle_invocation :
      Run → ToolCall → W × Errors.Result (StepResult × Termination) → W × Progress
  settle_invocation run call (w, Errors.err e) =
      (w, Progress.stopped (Outcome.returned run.result (some e)))
  settle_invocation run call (w, Errors.ok (step, reason)) = settle_step run call step reason w

  -- One pass of the inner loop.
  unfoldable pub process_call : ToolCall → Run → W → W × Progress
  unfolding invoke_tool
  process_call call run w =
      let w' = record_pending run.pending_step run.result.steps_taken w in
      if is_repeated run.last_call call
      then (
        record_loop call run.result.steps_taken w',
        Progress.stopped (ended run.result Termination.loop_detected),
      )
      else settle_invocation run call (invoke_tool ctx registry call limit w')

  unfoldable pub process_calls : List ToolCall → Run → W → W × Progress
  unfolding process_call
  process_calls [] run w = (w, Progress.next run)
  process_calls (call ∷ calls) run w =
      go_on (process_call call run w) (λ run' w'. process_calls calls run' w')

  abbrev record_budget : ℤ → W → W
  record_budget taken w =
      record_agent_observation executor ctx
        (record {
          step_index = taken;
          tool_call_id = "";
          tool_name = "";
          termination_reason = termination_text Termination.budget_exceeded;
          tool_summary_status = "";
          outcome_status = "failure";
          failure_status = failure_text FailureStatus.budget_exceeded;
          loop_detected = false;
          budget_exceeded = true;
          started_at = started;
          ended_at = executor.now w;
        })
        w

  abbrev record_finished : Option StepResult → ℤ → W → W
  record_finished none taken w = w
  record_finished (some step) taken w =
      record_agent_step_observation executor ctx step taken (termination_text Termination.finished)
        "success" "success" "" false false started w

  abbrev without_calls : Error
  without_calls =
      errorf "agent provider returned finish_reason=%q without tool calls" ("tool_calls" ∷ [])

  abbrev pub process_tool_calls : List ToolCall → Run → W → W × Progress
  process_tool_calls [] run w =
      (w, Progress.stopped (Outcome.returned run.result (some without_calls)))
  process_tool_calls (call ∷ calls) run w = process_calls (call ∷ calls) run w

  -- What Run does with a response whose tokens are counted in `run`.
  unfoldable pub process_response : ChatResponse → Run → W → W × Progress
  unfolding process_calls
  process_response response run w =
      let result = run.result in
      if exceeded_token_budget result.tokens_used limit.token_budget
      then (
        record_budget result.steps_taken w,
        Progress.stopped (ended result Termination.budget_exceeded),
      )
      else if is_tool_call response.finish_reason
      then process_tool_calls response.tool_calls run w
      else (
        record_finished run.pending_step result.steps_taken w,
        Progress.stopped (ended (record result { answer = response.content }) Termination.finished),
      )

  abbrev pub count_tokens : ChatResponse → Run → Run
  count_tokens response run =
      let used = wrap_int (run.result.tokens_used +ℤ response.usage.total_tokens) in
      record run { result = record run.result { tokens_used = used } }

  abbrev pub process_answer : Run → W × Option ChatResponse × Option Error → W × Progress
  process_answer run (w, got, some e) = (
    w,
    Progress.stopped (Outcome.returned run.result (some (wrapf "agent provider chat: %w" [] e))),
  )
  process_answer run (w, none, none) = (w, Progress.stopped Outcome.panicked)
  process_answer run (w, some response, none) =
      process_response response (count_tokens response run) w

  abbrev pub chat_request : String → Run → W → ChatRequest
  chat_request model run w = record {
    model = model;
    messages = run.messages;
    tools = llm_tools registry w;
    temperature = none;
    max_tokens = pos 0;
    structured_output = none;
    reasoning_effort = "";
    stream = false;
  }

  -- One pass of the outer loop.
  unfoldable pub turn : Provider W Stream → String → Run → W → W × Progress
  unfolding process_response
  turn provider model run w = process_answer run (provider.chat (some (chat_request model run w)) w)

  unfoldable pub loop : Provider W Stream → String → ℕ → Run → W → W × Outcome
  unfolding turn
  loop provider model zero run w = (w, Outcome.out_of_fuel)
  loop provider model (suc fuel) run w =
      conclude (turn provider model run w) (λ run' w'. loop provider model fuel run' w')

abbrev pub first_run : String → Run
first_run query = record {
  messages = (record { role = Role.user; content = query; name = ""; tool_call_id = "" }) ∷ [];
  result = empty_result;
  last_call = none;
  pending_step = none;
}

abbrev pub start :
    {W Stream : Type 0}
    → NativeExecutor W Stream
    → Context W
    → Request W
    → Provider W Stream
    → Registry W
    → Option Error
    → W
    → W × Outcome
start executor ctx req provider registry (some e) w = (w, Outcome.returned empty_result (some e))
start executor ctx req provider registry none w =
    let limit = normalize_limit req.limit in
    loop executor ctx registry limit (executor.now w) provider req.model (pos_part limit.max_steps)
      (first_run req.query) w

abbrev pub run_valid :
    {W Stream : Type 0}
    → NativeExecutor W Stream
    → Context W
    → Request W
    → Errors.Result (Provider W Stream × Registry W)
    → W
    → W × Outcome
run_valid executor ctx req (Errors.err e) w = (w, Outcome.returned empty_result (some e))
run_valid executor ctx req (Errors.ok (provider, registry)) w =
    start executor ctx req provider registry (ctx.err w) w

-- (*NativeExecutor).Run
unfoldable pub run :
    {W Stream : Type 0} → Option (NativeExecutor W Stream) → Context W → Request W → W → W × Outcome
unfolding loop normalize_limit validate_executor
run none ctx req w =
    (w, Outcome.returned empty_result (some (errorf "agent executor is required" [])))
run (some executor) ctx req w = run_valid executor ctx req (validate_executor (some executor)) w

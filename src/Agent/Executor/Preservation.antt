-- ===== src/Agent/Executor/Preservation.antt =====
-- Every pass of Run's two loops keeps what holds of its variables, and with enough fuel the outer loop
-- ends well.
use mathlib.Core.Option
use ash_jazz_ai_agent.Prelude.{
  ℕ, suc, zero, String, false, List, [], ◌∷◌, Option, none, some, length, ◌≡◌, refl, ◌≤◌, ◌+◌, inl,
  inr, Bool-cases, length-append, arith,
}
use ash_jazz_ai_agent.Prelude.Int.{pos_part, eq_of_parts}
use ash_jazz_ai_agent.Errors
use ash_jazz_ai_agent.Errors.{Error}
use ash_jazz_ai_agent.Llm.{ChatResponse, Provider, ToolCall}
use ash_jazz_ai_agent.Agent.Tool.{StepResult, Limit, Result, Termination}
use ash_jazz_ai_agent.Agent.Registry.{Registry}
use ash_jazz_ai_agent.Agent.Executor.{NativeExecutor, Context, clone_tool_call, invoke_tool}
use ash_jazz_ai_agent.Agent.Executor.Loop.{
  Outcome, Run, Progress, append_step, is_repeated, process_call, process_calls, process_response,
  process_tool_calls, process_answer, count_tokens, chat_request, turn, loop, go_on, conclude,
  settle_step, settle_invocation,
}
use ash_jazz_ai_agent.Agent.Executor.Invariant.{
  last, call_of, last-append, Chained-append, IsCounted, IsEnd, IsGoing, IsRun, IsProgress,
}

append_step-IsCounted :
    (result : Result) (step : StepResult) (call : ToolCall)
    → step.tool_call ≡ clone_tool_call call
    → is_repeated (Option.map call_of (last result.steps)) call ≡ false
    → IsCounted result
    → IsCounted (append_step result step)
append_step-IsCounted result step call e h c = (refl, Chained-append result.steps step call e h c.1)

-- What goes on from a pass that is good ends well.
module _ {W : Type 0} (limit : Limit) (m : ℕ) where
  go_on-IsProgress :
      (n : ℕ) (p : W × Progress) (rest : Run → W → W × Progress)
      → IsProgress limit m p.1
      → ((run : Run) (w : W)
          → IsRun limit run
          → m ≤ length run.result.steps
          → IsProgress limit n (rest run w).1)
      → IsProgress limit n (go_on p rest).1
  go_on-IsProgress n (w, Progress.stopped o) rest g h = g
  go_on-IsProgress n (w, Progress.next run) rest g h = h run w g.0 g.1

  conclude-IsEnd :
      (p : W × Progress) (rest : Run → W → W × Outcome)
      → IsProgress limit m p.1
      → ((run : Run) (w : W)
          → IsRun limit run
          → m ≤ length run.result.steps
          → IsEnd limit (rest run w).1)
      → IsEnd limit (conclude p rest).1
  conclude-IsEnd (w, Progress.stopped o) rest g h = g
  conclude-IsEnd (w, Progress.next run) rest g h = h run w g.0 g.1

module _ {W Stream : Type 0} (executor : NativeExecutor W Stream) (ctx : Context W)
    (registry : Registry W) (limit : Limit) (started : ℕ) where
  settle_step-running :
      (run : Run) (call : ToolCall) (step : StepResult) (w : W)
      → step.tool_call ≡ clone_tool_call call
      → is_repeated run.last_call call ≡ false
      → IsRun limit run
      → IsProgress limit
          (suc (length run.result.steps))
          (settle_step executor ctx registry limit started run call step Termination.running w).1
  settle_step-running run call step w e h i =
      let held : is_repeated (Option.map call_of (last run.result.steps)) call ≡ false =
        ground arith in
      ground (
        arith,
        length-append run.result.steps (step ∷ []),
        last-append run.result.steps step,
        append_step-IsCounted run.result step call e held i.0.0,
        eq_of_parts limit.max_steps (append_step run.result step).steps_taken,
      )

  settle_step-timeout :
      (run : Run) (call : ToolCall) (step : StepResult) (w : W)
      → step.tool_call ≡ clone_tool_call call
      → is_repeated run.last_call call ≡ false
      → IsRun limit run
      → IsProgress limit
          (suc (length run.result.steps))
          (settle_step executor ctx registry limit started run call step Termination.step_timeout
            w).1
  settle_step-timeout run call step w e h i =
      let held : is_repeated (Option.map call_of (last run.result.steps)) call ≡ false =
        ground arith in
      ground (
        arith,
        length-append run.result.steps (step ∷ []),
        append_step-IsCounted run.result step call e held i.0.0,
      )

  -- An invocation gives an error, or a step that holds the call and times out at most.
  abbrev IsInvocation : ToolCall → Errors.Result (StepResult × Termination) → Type 0
  IsInvocation call (Errors.err e) = Unit {0}
  IsInvocation call (Errors.ok (step, Termination.running)) = step.tool_call ≡ clone_tool_call call
  IsInvocation call (Errors.ok (step, Termination.step_timeout)) =
      step.tool_call ≡ clone_tool_call call
  IsInvocation call (Errors.ok (step, _)) = ⊥

  invoke_tool-IsInvocation :
      (call : ToolCall) (w : W) → IsInvocation call (invoke_tool ctx registry call limit w).1
  unfolding invoke_tool
  invoke_tool-IsInvocation call w = ground arith

  settle_invocation-IsProgress :
      (run : Run) (call : ToolCall) (w : W) (made : Errors.Result (StepResult × Termination))
      → IsInvocation call made
      → is_repeated run.last_call call ≡ false
      → IsRun limit run
      → IsProgress limit
          (suc (length run.result.steps))
          (settle_invocation executor ctx registry limit started run call (w, made)).1
  settle_invocation-IsProgress run call w (Errors.err e) v h i = ground arith
  settle_invocation-IsProgress run call w (Errors.ok (step, Termination.running)) v h i =
      settle_step-running run call step w v h i
  settle_invocation-IsProgress run call w (Errors.ok (step, Termination.step_timeout)) v h i =
      settle_step-timeout run call step w v h i
  settle_invocation-IsProgress run call w (Errors.ok (step, Termination.finished)) v h i =
      elim v [ ]
  settle_invocation-IsProgress run call w (Errors.ok (step, Termination.max_steps)) v h i =
      elim v [ ]
  settle_invocation-IsProgress run call w (Errors.ok (step, Termination.loop_detected)) v h i =
      elim v [ ]
  settle_invocation-IsProgress run call w (Errors.ok (step, Termination.budget_exceeded)) v h i =
      elim v [ ]

  process_call-IsProgress :
      (call : ToolCall) (run : Run) (w : W)
      → IsRun limit run
      → IsProgress limit
          (suc (length run.result.steps))
          (process_call executor ctx registry limit started call run w).1
  unfolding process_call
  process_call-IsProgress call run w i = elim (Bool-cases (is_repeated run.last_call call)) [
    | inl e ↦ ground arith
    | inr e ↦ rw e (settle_invocation-IsProgress run call _ _ (invoke_tool-IsInvocation call _) e i)
  ]

  process_calls-IsProgress :
      (calls : List ToolCall) (run : Run) (w : W) (n : ℕ)
      → IsRun limit run
      → n ≤ length run.result.steps
      → IsProgress limit n (process_calls executor ctx registry limit started calls run w).1
  unfolding process_calls
  process_calls-IsProgress [] run w n i h = (i, h)
  process_calls-IsProgress (call ∷ calls) run w n i h =
      go_on-IsProgress limit (suc (length run.result.steps)) n
        (process_call executor ctx registry limit started call run w)
        (λ run' w'. process_calls executor ctx registry limit started calls run' w')
        (process_call-IsProgress call run w i)
        (λ run' w' i' h'. process_calls-IsProgress calls run' w' n i' (omega (arith, h, h')))

  process_tool_calls-IsProgress :
      (calls : List ToolCall) (run : Run) (w : W)
      → IsRun limit run
      → IsProgress limit
          (suc (length run.result.steps))
          (process_tool_calls executor ctx registry limit started calls run w).1
  unfolding process_calls
  process_tool_calls-IsProgress [] run w i = ground arith
  process_tool_calls-IsProgress (call ∷ calls) run w i =
      let n = suc (length run.result.steps) in
      go_on-IsProgress limit n n (process_call executor ctx registry limit started call run w)
        (λ run' w'. process_calls executor ctx registry limit started calls run' w')
        (process_call-IsProgress call run w i)
        (λ run' w' i' h'. process_calls-IsProgress calls run' w' n i' h')

  process_response-IsProgress :
      (response : ChatResponse) (run : Run) (w : W)
      → IsGoing limit run
      → IsProgress limit
          (suc (length run.result.steps))
          (process_response executor ctx registry limit started response run w).1
  unfolding process_response
  process_response-IsProgress response run w i =
      ground (arith, process_tool_calls-IsProgress response.tool_calls run w)

  process_answer-IsProgress :
      (run : Run) (answer : W × Option ChatResponse × Option Error)
      → IsRun limit run
      → IsProgress limit
          (suc (length run.result.steps))
          (process_answer executor ctx registry limit started run answer).1
  process_answer-IsProgress run (w, got, some e) i = ground arith
  process_answer-IsProgress run (w, none, none) i = tt
  process_answer-IsProgress run (w, some response, none) i =
      process_response-IsProgress response
        (count_tokens executor ctx registry limit started response run) w i.0

  turn-IsProgress :
      (provider : Provider W Stream) (model : String) (run : Run) (w : W)
      → IsRun limit run
      → IsProgress limit
          (suc (length run.result.steps))
          (turn executor ctx registry limit started provider model run w).1
  unfolding turn
  turn-IsProgress provider model run w i =
      process_answer-IsProgress run
        (provider.chat (some (chat_request executor ctx registry limit started model run w)) w) i

  -- With as much fuel as steps are left the loop ends, and its result is one.
  pub loop-IsEnd :
      (provider : Provider W Stream) (model : String) (fuel : ℕ) (run : Run) (w : W)
      → IsRun limit run
      → pos_part limit.max_steps ≤ fuel + length run.result.steps
      → IsEnd limit (loop executor ctx registry limit started provider model fuel run w).1
  unfolding loop
  loop-IsEnd provider model zero run w i h = ground arith
  loop-IsEnd provider model (suc fuel) run w i h =
      conclude-IsEnd limit (suc (length run.result.steps))
        (turn executor ctx registry limit started provider model run w)
        (λ run' w'. loop executor ctx registry limit started provider model fuel run' w')
        (turn-IsProgress provider model run w i)
        (λ run' w' i' h'. loop-IsEnd provider model fuel run' w' i' (omega (arith, h, h')))

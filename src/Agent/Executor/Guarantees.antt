-- ===== src/Agent/Executor/Guarantees.antt =====
-- What (*NativeExecutor).Run promises for every provider, tool and clock.
use ash_jazz_ai_agent.Prelude.{
  String, [], true, false, Option, none, some, length, ◌≡◌, ◌≢◌, subst, arith, if◌then◌else◌,
}
use ash_jazz_ai_agent.Prelude.Int.{pos, pos_part, ◌≤ℤ◌, leb_ℤ, ltb_ℤ, not_positive}
use ash_jazz_ai_agent.Errors
use ash_jazz_ai_agent.Errors.{Error, errorf}
use ash_jazz_ai_agent.Llm.{Provider}
use ash_jazz_ai_agent.Agent.Tool.{Limit, Request, Result, Termination}
use ash_jazz_ai_agent.Agent.Registry.{Registry}
use ash_jazz_ai_agent.Agent.Executor.{
  NativeExecutor, Context, normalize_limit, exceeded_token_budget, validate_executor,
}
use ash_jazz_ai_agent.Agent.Executor.Loop.{Outcome, empty_result, first_run, start, run_valid, run}
use ash_jazz_ai_agent.Agent.Executor.Invariant.{IsEnd, IsRun, IsReason}
use ash_jazz_ai_agent.Agent.Executor.Preservation.{loop-IsEnd}

-- The limits in force are at least one step.
normalize_limit-positive : (limit : Limit) → leb_ℤ (normalize_limit limit).max_steps (pos 0) ≡ false
unfolding normalize_limit
normalize_limit-positive limit = ground arith

empty_result-IsEnd :
    (limit : Limit) (e : Error)
    → IsEnd (normalize_limit limit) (Outcome.returned empty_result (some e))
unfolding normalize_limit exceeded_token_budget
empty_result-IsEnd limit e = ground arith

first_run-IsRun : (limit : Limit) (query : String) → IsRun (normalize_limit limit) (first_run query)
unfolding normalize_limit exceeded_token_budget
first_run-IsRun limit query = ground arith

module _ {W Stream : Type 0} (ctx : Context W) (req : Request W) (w : W) where
  start-IsEnd :
      (executor : NativeExecutor W Stream) (provider : Provider W Stream) (registry : Registry W)
      (e : Option Error)
      → IsEnd (normalize_limit req.limit) (start executor ctx req provider registry e w).1
  start-IsEnd executor provider registry (some e) = empty_result-IsEnd req.limit e
  start-IsEnd executor provider registry none =
      let limit = normalize_limit req.limit in
      loop-IsEnd executor ctx registry limit (executor.now w) provider req.model
        (pos_part limit.max_steps) (first_run req.query) w (first_run-IsRun req.limit req.query)
        (omega arith)

  run_valid-IsEnd :
      (executor : NativeExecutor W Stream) (valid : Errors.Result (Provider W Stream × Registry W))
      → IsEnd (normalize_limit req.limit) (run_valid executor ctx req valid w).1
  run_valid-IsEnd executor (Errors.err e) = empty_result-IsEnd req.limit e
  run_valid-IsEnd executor (Errors.ok (provider, registry)) =
      start-IsEnd executor provider registry (ctx.err w)

  run-IsEnd :
      (executor : Option (NativeExecutor W Stream))
      → IsEnd (normalize_limit req.limit) (run executor ctx req w).1
  unfolding run
  run-IsEnd none = empty_result-IsEnd req.limit (errorf "agent executor is required" [])
  run-IsEnd (some executor) = run_valid-IsEnd executor (validate_executor (some executor))

module _ {W Stream : Type 0} (executor : Option (NativeExecutor W Stream)) (ctx : Context W)
    (req : Request W) (w : W) where
  -- Run ends: as many passes of the loop as steps are allowed are always enough, whatever the provider
  -- answers and the tools do.
  pub run-ends : (run executor ctx req w).1 ≢ Outcome.out_of_fuel
  run-ends gone = subst (IsEnd (normalize_limit req.limit)) gone (run-IsEnd ctx req w executor)

  module _ (result : Result) (e : Option Error)
      (ended : (run executor ctx req w).1 ≡ Outcome.returned result e) where
    result-IsEnd : IsEnd (normalize_limit req.limit) (Outcome.returned result e)
    result-IsEnd = subst (IsEnd (normalize_limit req.limit)) ended (run-IsEnd ctx req w executor)

    -- Whatever result Run returns, with an error or not, StepsTaken is the number of its steps, and it
    -- is at most the step limit of the request, or ten where the request sets no positive limit.
    pub run-max_steps :
        (result.steps_taken ≡ pos (length result.steps))
        × (result.steps_taken
            ≤ℤ (if not_positive req.limit.max_steps then pos 10 else req.limit.max_steps))
    unfolding normalize_limit
    run-max_steps = ground (arith, result-IsEnd)

    -- With a positive token budget a result that another reason ended, or an error, has used no more
    -- tokens than the budget.
    pub run-token_budget :
        ltb_ℤ (pos 0) req.limit.token_budget ≡ true
        → result.terminated_by ≢ Termination.budget_exceeded
        → result.tokens_used ≤ℤ req.limit.token_budget
    unfolding normalize_limit exceeded_token_budget
    run-token_budget positive other = ground (arith, result-IsEnd)

    -- Run gives a reason exactly when it returns no error, and gives max_steps as the reason only when
    -- the steps taken are as many as the limit allows.
    pub run-IsReason : IsReason (normalize_limit req.limit) result result.terminated_by e
    run-IsReason = result-IsEnd.3

-- ===== src/Agent/Executor/Invariant.antt =====
-- What holds of Run's variables between two tool calls, and of its result at the end, and that every
-- pass of the two loops keeps it.
use mathlib.Core.Option
use ash_jazz_ai_agent.Prelude.{
  ℕ, true, false, List, [], ◌∷◌, ◌++◌, Option, none, some, length, ◌≡◌, refl, ◌≤◌, ◌⊎◌, inl, inr,
  Bool-cases, ap, ◌∙◌,
}
use ash_jazz_ai_agent.Prelude.Int.{pos, leb_ℤ}
use ash_jazz_ai_agent.Errors.{Error}
use ash_jazz_ai_agent.Json.Copies.{map_copied, clone_map-same}
use ash_jazz_ai_agent.Llm.{ToolCall}
use ash_jazz_ai_agent.Agent.Tool.{StepResult, Limit, Result, Termination}
use ash_jazz_ai_agent.Agent.Executor.{exceeded_token_budget, same_tool_call, clone_tool_call}
use ash_jazz_ai_agent.Agent.Executor.Loop.{Outcome, Run, Progress, is_repeated}

-- A step holds the copy of a call that is not the same as what the step before holds. So the two steps hold
-- different calls, or a slice in the arguments is one that a copy changes.
abbrev pub Follows : StepResult → StepResult → Type 0
Follows a b =
    (call : ToolCall) × (b.tool_call ≡ clone_tool_call call)
    × (same_tool_call a.tool_call call ≡ false)
    × ((same_tool_call a.tool_call b.tool_call ≡ false) ⊎ (map_copied call.arguments ≡ false))

same_tool_call-clone :
    (previous call : ToolCall)
    → map_copied call.arguments ≡ true
    → same_tool_call previous (clone_tool_call call) ≡ same_tool_call previous call
unfolding same_tool_call
same_tool_call-clone previous call h = rw (clone_map-same call.arguments h) refl

followed :
    (a b : StepResult) (call : ToolCall)
    → b.tool_call ≡ clone_tool_call call
    → same_tool_call a.tool_call call ≡ false
    → Follows a b
followed a b call e h = elim (Bool-cases (map_copied call.arguments)) [
  | inr c ↦ (call, e, h, inr c)
  | inl c ↦ (
    call,
    e,
    h,
    inl (ap (same_tool_call a.tool_call) e ∙ same_tool_call-clone a.tool_call call c ∙ h),
  )
]

abbrev pub Chained : List StepResult → Type 0
Chained [] = Unit {0}
Chained (a ∷ []) = Unit {0}
Chained (a ∷ b ∷ steps) = Follows a b × Chained (b ∷ steps)

abbrev pub last {ℓ} : {A : Type ℓ} → List A → Option A
last [] = none
last (a ∷ []) = some a
last (a ∷ b ∷ rest) = last (b ∷ rest)

abbrev pub call_of : StepResult → ToolCall
call_of step = step.tool_call

pub last-append {ℓ} : {A : Type ℓ} (xs : List A) (a : A) → last (xs ++ a ∷ []) ≡ some a
last-append [] a = refl
last-append (b ∷ []) a = refl
last-append (b ∷ c ∷ xs) a = last-append (c ∷ xs) a

-- A call that does not repeat the last step's extends the chain.
pub Chained-append :
    (steps : List StepResult) (step : StepResult) (call : ToolCall)
    → step.tool_call ≡ clone_tool_call call
    → is_repeated (Option.map call_of (last steps)) call ≡ false
    → Chained steps
    → Chained (steps ++ step ∷ [])
Chained-append [] step call e h c = tt
Chained-append (a ∷ []) step call e h c = (followed a step call e h, tt)
Chained-append (a ∷ b ∷ steps) step call e h c = (c.0, Chained-append (b ∷ steps) step call e h c.1)

-- The reason of an end: an error leaves it open, and the step limit is given as one only when it is
-- reached.
abbrev pub IsReason : Limit → Result → Termination → Option Error → Type 0
IsReason limit result Termination.running none = ⊥
IsReason limit result Termination.running (some e) = Unit {0}
IsReason limit result Termination.max_steps none = limit.max_steps ≡ result.steps_taken
IsReason limit result reason none = Unit {0}
IsReason limit result reason (some e) = ⊥

-- Whatever the reason but the budget itself, the tokens used are within the budget.
abbrev pub IsInBudget : Limit → Result → Termination → Type 0
IsInBudget limit result Termination.budget_exceeded = Unit {0}
IsInBudget limit result reason = exceeded_token_budget result.tokens_used limit.token_budget ≡ false

abbrev pub IsCounted : Result → Type 0
IsCounted result = (result.steps_taken ≡ pos (length result.steps)) × Chained result.steps

abbrev pub IsEnd : Limit → Outcome → Type 0
IsEnd limit (Outcome.returned result e) =
    IsCounted result
    × (leb_ℤ result.steps_taken limit.max_steps ≡ true)
    × IsInBudget limit result result.terminated_by
    × IsReason limit result result.terminated_by e
IsEnd limit Outcome.panicked = Unit {0}
IsEnd limit Outcome.out_of_fuel = ⊥

-- Between two calls: the limit is not reached, no reason is given, and lastCall is the last step's.
abbrev pub IsGoing : Limit → Run → Type 0
IsGoing limit run =
    IsCounted run.result
    × (leb_ℤ limit.max_steps run.result.steps_taken ≡ false)
    × (run.result.terminated_by ≡ Termination.running)
    × (run.last_call ≡ Option.map call_of (last run.result.steps))

abbrev pub IsRun : Limit → Run → Type 0
IsRun limit run =
    IsGoing limit run × (exceeded_token_budget run.result.tokens_used limit.token_budget ≡ false)

-- A pass goes on with at least `n` steps, or it ends.
abbrev pub IsProgress : Limit → ℕ → Progress → Type 0
IsProgress limit n (Progress.next run) = IsRun limit run × (n ≤ length run.result.steps)
IsProgress limit n (Progress.stopped o) = IsEnd limit o

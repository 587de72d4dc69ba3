-- ===== src/Eval/Metrics.antt =====
-- pkg/ai/eval/metrics.go. A sample's context is given by its error; `ratio` is the machine's quotient of
-- two numbers, and `table` the part of unicode.ToLower that is not ASCII.
pub mod Scores
pub mod Tests
use Prim.Native.Char.{Char}
use ash_jazz_ai_agent.Prelude.{
  ℕ, ◌+◌, String, Bool, true, false, not, ◌&&◌, ◌||◌, List, [], ◌∷◌, Option, none, some, length,
  if◌then◌else◌,
}
use ash_jazz_ai_agent.Prelude.Float.{Float64, less}
use ash_jazz_ai_agent.Prelude.Substring.{contains, to_lower}
use ash_jazz_ai_agent.Prelude.Text.{is_empty, is_blank, text_beq, trim_space}
use ash_jazz_ai_agent.Errors.{Error, errorf, Result, ok, err}
use ash_jazz_ai_agent.Eval.Dataset.{Sample, Prediction}
use ash_jazz_ai_agent.Eval.Evidence.{zero, one}

-- `clamp01`, and `clampScore` of the runner.
unfoldable pub clamp01 : Float64 → Float64
unfolding less
clamp01 score = if less score zero then zero else if less one score then one else score

abbrev refused : String → String → Result Float64
refused format id = err (errorf format (id ∷ []))

abbrev unless_ended : Option Error → Result Float64 → Result Float64
unless_ended (some e) score = err e
unless_ended none score = score

-- `ExactMatchMetric.Score`
unfoldable pub exact_match : Option Error → Sample → Prediction → Result Float64
exact_match ended sample prediction = unless_ended ended (
    if is_blank sample.ground_truth
    then refused "exact_match sample %q ground truth is required" sample.id
    else if is_blank prediction.answer
    then refused "exact_match sample %q answer is required" sample.id
    else if text_beq (trim_space prediction.answer) (trim_space sample.ground_truth)
    then ok one
    else ok zero)

abbrev pub is_nil {ℓ} : {A : Type ℓ} → List A → Bool
is_nil [] = true
is_nil (a ∷ rest) = false

unfoldable pub is_held : String → List String → Bool
is_held s [] = false
is_held s (t ∷ ts) = let later = is_held s ts in text_beq s t || later

-- The loop over the relevant texts, with the trimmed texts of the prediction that are not empty.
abbrev pub keep_given : List String → List String
keep_given [] = []
keep_given (item ∷ items) =
    let rest = keep_given items in if is_blank item then rest else trim_space item ∷ rest

unfoldable pub count_hits : List String → List String → ℕ
unfolding is_held
count_hits predicted [] = 0
count_hits predicted (item ∷ items) =
    let rest = count_hits predicted items in
    if is_held (trim_space item) predicted then rest + 1 else rest

-- `ContextHitMetric.Score`
unfoldable pub context_hit : (ℕ → ℕ → Float64) → Option Error → Sample → Prediction → Result Float64
unfolding clamp01 count_hits
context_hit ratio ended sample prediction = unless_ended ended (
    if is_nil sample.relevant_ctx
    then refused "context_hit sample %q relevant context is required" sample.id
    else if is_nil prediction.context
    then refused "context_hit sample %q prediction context is required" sample.id
    else ok (
        clamp01 (
          ratio (count_hits (keep_given prediction.context) sample.relevant_ctx)
            (length sample.relevant_ctx))))

module _ (table : Char → Char) where
  unfoldable pub normalize_keywords : List String → List String
  unfolding to_lower
  normalize_keywords [] = []
  normalize_keywords (keyword ∷ keywords) =
      let rest = normalize_keywords keywords in
      if is_blank keyword then rest else to_lower table (trim_space keyword) ∷ rest

  unfoldable pub contains_each : String → List String → Bool
  unfolding contains
  contains_each answer [] = true
  contains_each answer (keyword ∷ keywords) =
      let later = contains_each answer keywords in contains answer keyword && later

  -- `ContainsAllMetric.Score`, of a metric made with these keywords.
  unfoldable pub contains_all : List String → Option Error → Sample → Prediction → Result Float64
  unfolding normalize_keywords contains_each to_lower
  contains_all keywords ended sample prediction =
      let normalized = normalize_keywords keywords in
      unless_ended ended (
        if is_nil normalized
        then err (errorf "contains_all keywords are required" [])
        else if is_blank prediction.answer
        then refused "contains_all sample %q answer is required" sample.id
        else if contains_each (to_lower table (trim_space prediction.answer)) normalized
        then ok one
        else ok zero)

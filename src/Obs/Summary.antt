-- ===== src/Obs/Summary.antt =====
-- pkg/ai/obs/safe_summary.go. The copies of the score's pointer are the identity on values.
use ash_jazz_ai_agent.Prelude.{String, List, [], ◌∷◌, Option, none, some}
use ash_jazz_ai_agent.Prelude.Int.{ℤ, pos}
use ash_jazz_ai_agent.Json.{Float64}
use ash_jazz_ai_agent.Obs.Identity.{apply_option}

pub record SafeSummary : Type 0 where
  pub hash : String
  pub length : ℤ
  pub category : String
  pub count : ℤ
  pub score : Option Float64
  pub status : String
  pub error_class : String

abbrev pub SafeSummaryOption : Type 0
SafeSummaryOption = SafeSummary → SafeSummary

abbrev pub empty_summary : SafeSummary
empty_summary = record {
  hash = "";
  length = pos 0;
  category = "";
  count = pos 0;
  score = none;
  status = "";
  error_class = "";
}

unfoldable pub apply_safe_summary_options :
    SafeSummary → List (Option SafeSummaryOption) → SafeSummary
apply_safe_summary_options base [] = base
apply_safe_summary_options base (o ∷ os) = apply_safe_summary_options (apply_option o base) os

unfoldable pub new_safe_summary : List (Option SafeSummaryOption) → SafeSummary
unfolding apply_safe_summary_options
new_safe_summary options = apply_safe_summary_options empty_summary options

abbrev pub with_summary_hash : String → SafeSummaryOption
with_summary_hash hash s = record s { hash = hash }

abbrev pub with_summary_length : ℤ → SafeSummaryOption
with_summary_length length s = record s { length = length }

abbrev pub with_summary_category : String → SafeSummaryOption
with_summary_category category s = record s { category = category }

abbrev pub with_summary_count : ℤ → SafeSummaryOption
with_summary_count count s = record s { count = count }

abbrev pub with_summary_score : Float64 → SafeSummaryOption
with_summary_score score s = record s { score = some score }

abbrev pub with_summary_status : String → SafeSummaryOption
with_summary_status status s = record s { status = status }

abbrev pub with_summary_error_class : String → SafeSummaryOption
with_summary_error_class error_class s = record s { error_class = error_class }

-- ===== src/Eval/Metrics/Scores.antt =====
-- What the metrics' scores are: between 0 and 1, and decided by the texts.

use ash_jazz_ai_agent.Prelude.{true, false, not, ◌≡◌, refl, arith}
use ash_jazz_ai_agent.Prelude.Float.{Float64, less, equal, is_nan, magnitude}
use ash_jazz_ai_agent.Prelude.Int.{pos}
use ash_jazz_ai_agent.Eval.Evidence.{zero, one, is_unit_interval}
use ash_jazz_ai_agent.Eval.Metrics.{clamp01}

zero-number : is_nan zero ≡ false
unfolding is_nan
zero-number = refl

one-number : is_nan one ≡ false
unfolding is_nan
one-number = refl

zero-magnitude : magnitude zero ≡ pos 0
unfolding magnitude
zero-magnitude = refl

one-magnitude : magnitude one ≡ pos 0x3ff0_0000_0000_0000
unfolding magnitude
one-magnitude = refl

-- A clamped number is between 0 and 1, and one that is there already stays as it is; what is no number
-- is not clamped, and is not between them.
pub clamp01-unit :
    (score : Float64)
    → (is_unit_interval (clamp01 score) ≡ not (is_nan score))
      × (is_unit_interval score ≡ true → clamp01 score ≡ score)
unfolding clamp01 is_unit_interval less equal
clamp01-unit score = (
  ground (arith, zero-number, one-number, zero-magnitude, one-magnitude),
  λ h. ground (arith, h, zero-number, one-number, zero-magnitude, one-magnitude),
)

-- ===== src/Obs/Redaction/Tests.antt =====
-- Runs of the redaction, and its theorems at concrete inputs.
use mathlib.Core.List.{Permᴰ}
use Prim.Native.Char.{Char}
use ash_jazz_ai_agent.Prelude.{String, List, [], ◌∷◌, ◌≡◌, refl, inr}
use ash_jazz_ai_agent.Prelude.Sort.{IsSorted, AllApart}
use ash_jazz_ai_agent.Prelude.TextOrder.{less_text}
use ash_jazz_ai_agent.Obs.Redaction.{by_key, scan_forbidden_payload_fields}
use ash_jazz_ai_agent.Obs.Redaction.Scan.{keys, scan-invariant}

-- Texts of these runs have no letters outside ASCII.
abbrev table : Char → Char
table c = c

abbrev fields : List (String × String)
fields = ("query", "call 138 0013 8000") ∷ ("Prompt", "x") ∷ []

abbrev turned : List (String × String)
turned = ("Prompt", "x") ∷ ("query", "call 138 0013 8000") ∷ []

apart : AllApart less_text (keys table fields)
unfolding less_text
apart = ((inr refl, tt), (tt, tt))

scan-invariant_example :
    IsSorted (by_key table) (scan_forbidden_payload_fields table fields)
    × (scan_forbidden_payload_fields table fields ≡ scan_forbidden_payload_fields table turned)
scan-invariant_example = scan-invariant table fields turned apart (Permᴰ.swap refl refl)

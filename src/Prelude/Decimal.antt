-- ===== src/Prelude/Decimal.antt =====
-- The decimal texts that fmt prints for `%d` and `%04d`.
use Prim.Native.Nat.{ℕ, zero, suc, ◌+◌, ◌-◌, ◌/◌, ◌%◌}
use Prim.Native.Char.{Char}
use Prim.Native.String.{String}
use mathlib.Core.Path.{◌≡◌, refl}
use mathlib.Core.List.{List, [], ◌∷◌, ◌++◌}
use ash_jazz_ai_agent.Prelude.Tests.{ltb, ◌==◌, if◌then◌else◌}
use ash_jazz_ai_agent.Prelude.Lists.{length, replicate}
use ash_jazz_ai_agent.Prelude.Text.{of_runes, append}
use ash_jazz_ai_agent.Prelude.Int.{ℤ, pos, negsuc}

abbrev digit : ℕ → Char
digit d =
    if d == 0
    then "0"
    else if d == 1
    then "1"
    else if d == 2
    then "2"
    else if d == 3
    then "3"
    else if d == 4
    then "4"
    else if d == 5
    then "5"
    else if d == 6
    then "6"
    else if d == 7
    then "7"
    else if d == 8
    then "8"
    else "9"

-- The digits of a number in front of others; a number needs fewer digits than itself and one.
digits : ℕ → ℕ → List Char → List Char
digits zero n rest = rest
digits (suc fuel) n rest =
    let before = digits fuel (n / 10) (digit (n % 10) ∷ rest) in
    if ltb n 10 then digit n ∷ rest else before

unfoldable pub decimal : ℕ → String
unfolding digits
decimal n = of_runes (digits (suc n) n [])

-- `%d`
abbrev pub int_text : ℤ → String
int_text (pos n) = decimal n
int_text (negsuc n) = append "-" (decimal (n + 1))

unfoldable pub decimal_padded : ℕ → ℕ → String
unfolding digits
decimal_padded width n =
    let shown = digits (suc n) n [] in of_runes (replicate (width - length shown) "0" ++ shown)

seven : decimal_padded 4 107 ≡ "0107"
unfolding decimal_padded
seven = refl

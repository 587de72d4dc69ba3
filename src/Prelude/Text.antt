-- ===== src/Prelude/Text.antt =====
-- Go strings: text as a sequence of code points, and strings.TrimSpace of the standard library.
use Prim.Native.Nat.{ℕ}
use Prim.Native.Char.{Char, code}
use Prim.Native.String.{String}
pub use text.Mathlib.Text.{◌==◌ as text_beq}
pub use text.Mathlib.TextEquality.{eq_iff as text_beq_iff}
use mathlib.Core.Path.{◌≡◌, refl}
use mathlib.Core.Bool.{Bool, true, false, ◌&&◌, ◌||◌}
use mathlib.Core.List.{List, [], ◌∷◌}
use ash_jazz_ai_agent.Prelude.Tests.{leb, ◌==◌, if◌then◌else◌}

-- unicode.IsSpace.
pub is_space : ℕ → Bool
is_space c =
    (leb 9 c && leb c 13)
    || c == 32
    || c == 0x85
    || c == 0xa0
    || c == 0x1680
    || (leb 0x2000 c && leb c 0x200a)
    || c == 0x2028
    || c == 0x2029
    || c == 0x202f
    || c == 0x205f
    || c == 0x3000

trim_left : String → String
unfolding is_space
trim_left String.[] = String.[]
trim_left (String.◌∷◌ c s) = if is_space (code c) then trim_left s else String.◌∷◌ c s

-- A code point in front of a trimmed rest: a space in front of nothing goes too.
abbrev cons_trimmed : Char → String → String
cons_trimmed c String.[] = if is_space (code c) then String.[] else String.◌∷◌ c String.[]
cons_trimmed c (String.◌∷◌ d s) = String.◌∷◌ c (String.◌∷◌ d s)

trim_right : String → String
unfolding is_space
trim_right String.[] = String.[]
trim_right (String.◌∷◌ c s) = cons_trimmed c (trim_right s)

unfoldable pub trim_space : String → String
unfolding trim_left trim_right
trim_space s = trim_right (trim_left s)

-- `s == ""`
abbrev pub is_empty : String → Bool
is_empty String.[] = true
is_empty (String.◌∷◌ c s) = false

-- `strings.TrimSpace(s) == ""`
abbrev pub is_blank : String → Bool
is_blank s = is_empty (trim_space s)

-- `[]rune(s)` and `string(runes)`
abbrev pub runes : String → List Char
runes String.[] = []
runes (String.◌∷◌ c s) = c ∷ runes s

abbrev pub of_runes : List Char → String
of_runes [] = String.[]
of_runes (c ∷ cs) = String.◌∷◌ c (of_runes cs)

trimmed : trim_space "  a b \n" ≡ "a b"
unfolding trim_space
trimmed = refl

-- `a + b`
abbrev pub append : String → String → String
append String.[] b = b
append (String.◌∷◌ c s) b = String.◌∷◌ c (append s b)

-- ===== src/Prelude/Substring.antt =====
-- strings.Contains, HasPrefix, TrimPrefix, TrimRight, Split, Join and ToLower of Go, on texts as sequences of code points.
use Prim.Native.Nat.{ℕ, zero, suc, ◌+◌}
use Prim.Native.Char.{Char, code}
use Prim.Native.String.{String}
use mathlib.Core.Path.{◌≡◌, refl}
use mathlib.Core.Bool.{Bool, true, false, ◌&&◌, ◌||◌}
use mathlib.Core.List.{List, [], ◌∷◌}
use ash_jazz_ai_agent.Prelude.Tests.{leb, ◌==◌, if◌then◌else◌}
use ash_jazz_ai_agent.Prelude.Text.{append}

unfoldable pub has_prefix : String → String → Bool
has_prefix s String.[] = true
has_prefix String.[] (String.◌∷◌ d p) = false
has_prefix (String.◌∷◌ c s) (String.◌∷◌ d p) = let rest = has_prefix s p in code c == code d && rest

-- `strings.Contains(s, fragment)`
unfoldable pub contains : String → String → Bool
unfolding has_prefix
contains String.[] fragment = has_prefix String.[] fragment
contains (String.◌∷◌ c s) fragment =
    let later = contains s fragment in has_prefix (String.◌∷◌ c s) fragment || later

-- How often a code point occurs.
unfoldable pub count_rune : ℕ → String → ℕ
count_rune n String.[] = 0
count_rune n (String.◌∷◌ c s) = let rest = count_rune n s in if code c == n then rest + 1 else rest

-- What stands in front of the first such code point, or the whole text, and what stands behind it.
unfoldable pub before_rune : ℕ → String → String
before_rune n String.[] = String.[]
before_rune n (String.◌∷◌ c s) =
    let rest = before_rune n s in if code c == n then String.[] else String.◌∷◌ c rest

unfoldable pub after_rune : ℕ → String → String
after_rune n String.[] = String.[]
after_rune n (String.◌∷◌ c s) = let rest = after_rune n s in if code c == n then s else rest

unfoldable pub map_runes : (Char → Char) → String → String
map_runes f String.[] = String.[]
map_runes f (String.◌∷◌ c s) = String.◌∷◌ (f c) (map_runes f s)

unfoldable pub filter_runes : (Char → Bool) → String → String
filter_runes keep String.[] = String.[]
filter_runes keep (String.◌∷◌ c s) =
    let rest = filter_runes keep s in if keep c then String.◌∷◌ c rest else rest

abbrev pub count_runes : String → ℕ
count_runes String.[] = 0
count_runes (String.◌∷◌ c s) = count_runes s + 1

-- The ASCII capitals, in their order.
abbrev letters : String
letters = "abcdefghijklmnopqrstuvwxyz"

-- The letter that stands for a capital, counted from A.
lower_in : String → ℕ → Char → Char
lower_in String.[] n c = c
lower_in (String.◌∷◌ l ls) n c = let rest = lower_in ls (n + 1) c in if code c == n then l else rest

-- `unicode.ToLower`: ASCII is written out; the rest of the Unicode table is a parameter.
unfoldable pub lower_rune : (Char → Char) → Char → Char
unfolding lower_in
lower_rune table c = if leb 0x80 (code c) then table c else lower_in letters 0x41 c

-- `strings.ToLower`
unfoldable pub to_lower : (Char → Char) → String → String
unfolding map_runes lower_rune
to_lower table s = map_runes (lower_rune table) s

-- What is left after as many code points.
skip : ℕ → String → String
skip zero s = s
skip (suc n) String.[] = String.[]
skip (suc n) (String.◌∷◌ c s) = skip n s

-- `strings.TrimPrefix(s, prefix)`
unfoldable pub trim_prefix : String → String → String
unfolding has_prefix skip
trim_prefix s prefix = if has_prefix s prefix then skip (count_runes prefix) s else s

abbrev pub cons_kept : ℕ → Char → String → String
cons_kept n c String.[] = if code c == n then String.[] else String.◌∷◌ c String.[]
cons_kept n c (String.◌∷◌ d s) = String.◌∷◌ c (String.◌∷◌ d s)

-- `strings.TrimRight(s, cutset)` for a set of one code point.
unfoldable pub trim_right_rune : ℕ → String → String
trim_right_rune n String.[] = String.[]
trim_right_rune n (String.◌∷◌ c s) = cons_kept n c (trim_right_rune n s)

-- `strings.Join(parts, separator)`
unfoldable pub join : String → List String → String
join separator [] = ""
join separator (part ∷ []) = part
join separator (part ∷ next ∷ parts) =
    append part (append separator (join separator (next ∷ parts)))

trims_prefix : trim_prefix "data: x" "data:" ≡ " x"
unfolding trim_prefix
trims_prefix = refl

joins : join ": " ("a" ∷ "b" ∷ []) ≡ "a: b"
unfolding join
joins = refl

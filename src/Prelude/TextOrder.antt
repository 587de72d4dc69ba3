-- ===== src/Prelude/TextOrder.antt =====
-- `a < b` on Go strings, by which sort.Strings orders. Go compares the bytes of the UTF-8 encoding;
-- for valid UTF-8 that is the order of the code points.
use Prim.Native.Char.{code}
use Prim.Native.String.{String}
use text.Mathlib.TextEquality.{Char-path}
use mathlib.Core.Path.{◌≡◌, refl, ap, ◌∙◌}
use mathlib.Core.Logic.{◌≢◌, inl, inr}
use mathlib.Core.Bool.{Bool, true, false, ◌&&◌, ◌||◌}
use mathlib.Core.List.{List, [], ◌∷◌}
use native.Mathlib.Omega.{arith}
use ash_jazz_ai_agent.Prelude.Tests.{ltb, ◌==◌, Bool-cases}
use ash_jazz_ai_agent.Prelude.Lists.{All}
use ash_jazz_ai_agent.Prelude.Sort.{IsWeakOrder, Apart}

unfoldable pub less_text : String → String → Bool
less_text s String.[] = false
less_text String.[] (String.◌∷◌ d t) = true
less_text (String.◌∷◌ c s) (String.◌∷◌ d t) =
    let later = less_text s t in ltb (code c) (code d) || (code c == code d && later)

less_text-asym : (a b : String) → less_text a b ≡ true → less_text b a ≡ false
unfolding less_text
less_text-asym s String.[] h = ground arith
less_text-asym String.[] (String.◌∷◌ d t) h = refl
less_text-asym (String.◌∷◌ c s) (String.◌∷◌ d t) h = ground (arith, less_text-asym s t)

less_text-cotrans :
    (a b c : String) → less_text a c ≡ true → less_text b c ≡ false → less_text a b ≡ true
unfolding less_text
less_text-cotrans a b String.[] h k = ground arith
less_text-cotrans a String.[] (String.◌∷◌ e u) h k = ground arith
less_text-cotrans String.[] (String.◌∷◌ d t) (String.◌∷◌ e u) h k = refl
less_text-cotrans (String.◌∷◌ c s) (String.◌∷◌ d t) (String.◌∷◌ e u) h k =
    ground (arith, less_text-cotrans s t u)

-- Every text can be ordered.
abbrev pub IsText : String → Type 0
IsText s = Unit {0}

pub All-IsText : (xs : List String) → All IsText xs
All-IsText [] = tt
All-IsText (x ∷ xs) = (tt, All-IsText xs)

pub less_text-IsWeakOrder : IsWeakOrder IsText less_text
less_text-IsWeakOrder = record {
  asym = λ a b _ _. less_text-asym a b;
  cotrans = λ a b c _ _ _. less_text-cotrans a b c;
}

-- Texts of which neither comes first are the same.
unordered_eq : (a b : String) → less_text a b ≡ false → less_text b a ≡ false → a ≡ b
unfolding less_text
unordered_eq String.[] String.[] h k = refl
unordered_eq String.[] (String.◌∷◌ d t) h k = ground arith
unordered_eq (String.◌∷◌ c s) String.[] h k = ground arith
unordered_eq (String.◌∷◌ c s) (String.◌∷◌ d t) h k =
    let heads : c ≡ d = Char-path c d (ground arith) in
    let tails : s ≡ t = unordered_eq s t (ground arith) (ground arith) in
    ap (λ x. String.◌∷◌ x s) heads ∙ ap (String.◌∷◌ d) tails

pub less_text-Apart : (a b : String) → a ≢ b → Apart less_text a b
less_text-Apart a b h = elim (Bool-cases (less_text a b)) [
  | inl e ↦ inl e
  | inr e ↦ elim (Bool-cases (less_text b a)) [
    | inl f ↦ inr f
    | inr f ↦ elim (h (unordered_eq a b e f)) [ ]
  ]
]

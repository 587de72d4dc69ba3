-- ===== src/Prompt/Paths/Containment.antt =====
-- A template's path is its name and its version, below the root.
use Prim.Native.Nat.{ℕ, ◌+◌, ◌≤◌}
use Prim.Native.Char.{Char, code}
use Prim.Native.String.{String}
use text.Mathlib.TextEquality.{Char-path}
use ash_jazz_ai_agent.Prelude.{
  Bool, true, false, ◌&&◌, [], ◌∷◌, ◌≡◌, ◌==◌, refl, sym, ap, subst, ◌∙◌, arith, if◌then◌else◌,
  Bool-cases, inl, inr,
}
use ash_jazz_ai_agent.Prelude.Substring.{count_rune, count_runes, has_prefix, join}
use ash_jazz_ai_agent.Prelude.Text.{append, is_empty, text_beq, text_beq_iff}
use ash_jazz_ai_agent.Errors.{ok, err}
use ash_jazz_ai_agent.Prompt.Paths.{
  split, clean_parts, clean, or_dot, join_path, has_dots, is_local, is_template_path_segment,
  unsafe_path, template_relative_path,
}
use ash_jazz_ai_agent.Prompt.Paths.Segments.{segment-parts, segment-no_slash}

pub split-no_slash : (s : String) → count_rune 0x2f s ≡ 0 → split s ≡ s ∷ []
unfolding split count_rune
split-no_slash String.[] h = refl
split-no_slash (String.◌∷◌ c s) h = ground (arith, h, split-no_slash s)

pub split-append :
    (a b : String) → count_rune 0x2f a ≡ 0 → split (append a (append "/" b)) ≡ a ∷ split b
unfolding split count_rune
split-append String.[] b h = refl
split-append (String.◌∷◌ c a) b h = ground (arith, h, split-append a b)

-- A part that Clean keeps.
abbrev pub IsPart : String → Type 0
IsPart s =
    (count_rune 0x2f s ≡ 0)
    × (is_empty s ≡ false)
    × (text_beq s "." ≡ false)
    × (text_beq s ".." ≡ false)

pub segment-IsPart : (s : String) → is_template_path_segment s ≡ true → IsPart s
segment-IsPart s h =
    let (given, dot, dots, _, _) = segment-parts s h in (segment-no_slash s h, given, dot, dots)

pub count_rune-append :
    (n : ℕ) (a b : String) → count_rune n (append a b) ≡ count_rune n a + count_rune n b
unfolding count_rune
count_rune-append n String.[] b = omega arith
count_rune-append n (String.◌∷◌ c a) b = ground (arith, count_rune-append n a b)

pub count_runes-append : (a b : String) → count_runes (append a b) ≡ count_runes a + count_runes b
count_runes-append String.[] b = omega arith
count_runes-append (String.◌∷◌ c a) b = omega (arith, count_runes-append a b)

too_long : (n m : ℕ) → n + 5 ≡ m → m ≤ 4 → ⊥
too_long n m e h = omega (arith, e, h)

-- A text with the suffix is longer than the texts that Clean treats specially.
template-ne : (version t : String) → count_runes t ≤ 4 → text_beq (append version ".tmpl") t ≡ false
template-ne version t short = elim (Bool-cases (text_beq (append version ".tmpl") t)) [
  | inl e ↦
      let same = ap count_runes ((text_beq_iff (append version ".tmpl") t).0 e) in
      elim (too_long (count_runes version) (count_runes t)
        (sym (count_runes-append version ".tmpl") ∙ same) short) [ ]
  | inr e ↦ e
]

template-given : (version : String) → is_empty (append version ".tmpl") ≡ false
template-given String.[] = refl
template-given (String.◌∷◌ c version) = refl

pub template-IsPart :
    (version : String) → is_template_path_segment version ≡ true → IsPart (append version ".tmpl")
unfolding count_rune
template-IsPart version h = (
  omega (arith, count_rune-append 0x2f version ".tmpl", segment-no_slash version h),
  template-given version,
  template-ne version "." (omega arith),
  template-ne version ".." (omega arith),
)

pub part-relative : (a b : String) → IsPart a → has_prefix (append a (append "/" b)) "/" ≡ false
unfolding has_prefix count_rune
part-relative String.[] b p = ground (arith, p)
part-relative (String.◌∷◌ c a) b p = ground (arith, p)

no_slash_clash : (n m : ℕ) → n + (m + 1) ≡ 0 → ⊥
no_slash_clash n m h = omega (arith, h)

-- The path of two parts.
abbrev pub path_of : String → String → String
path_of a b = append a (append "/" b)

split-parts : (a b : String) → IsPart a → IsPart b → split (path_of a b) ≡ a ∷ b ∷ []
split-parts a b p q = split-append a b p.0 ∙ ap (λ l. a ∷ l) (split-no_slash b q.0)

clean_parts-parts :
    (a b : String) → IsPart a → IsPart b → clean_parts false (a ∷ b ∷ []) [] ≡ b ∷ a ∷ []
unfolding clean_parts
clean_parts-parts a b p q = ground (arith, p, q)

pub given-parts : (a b : String) → is_empty (path_of a b) ≡ false
given-parts String.[] b = refl
given-parts (String.◌∷◌ c a) b = refl

pub or_dot-given : (s : String) → is_empty s ≡ false → or_dot s ≡ s
or_dot-given s h = rw h refl

pub clean-parts : (a b : String) → IsPart a → IsPart b → clean (path_of a b) ≡ path_of a b
unfolding clean join
clean-parts a b p q =
    let kept : clean (path_of a b) ≡ or_dot (path_of a b) =
      rw (part-relative a b p, clean)
        (rw (split-parts a b p q) (rw (clean_parts-parts a b p q) refl)) in
    kept ∙ or_dot-given (path_of a b) (given-parts a b)

two_dots :
    (c d : Char)
    → code c ≡ 0x2e
    → code d ≡ 0x2e
    → text_beq (String.◌∷◌ c (String.◌∷◌ d String.[])) ".." ≡ false
    → ⊥
two_dots c d m n h =
    let dot : Char = "." in
    let first : c ≡ dot = Char-path c dot m in
    let second : d ≡ dot = Char-path d dot n in
    let dotted =
      subst (λ x. text_beq (String.◌∷◌ dot (String.◌∷◌ x String.[])) ".." ≡ false) second
        (subst (λ x. text_beq (String.◌∷◌ x (String.◌∷◌ d String.[])) ".." ≡ false) first h) in
    let clash : true ≡ false = dotted in ground (arith, clash)

not_above-parts : (a b : String) → IsPart a → has_prefix (path_of a b) "../" ≡ false
unfolding has_prefix count_rune
not_above-parts String.[] b p = refl
not_above-parts (String.◌∷◌ c String.[]) b p = ground arith
not_above-parts (String.◌∷◌ c (String.◌∷◌ d String.[])) b p =
    elim (Bool-cases (code c == 0x2e && code d == 0x2e)) [
      | inl e ↦ elim (two_dots c d (ground (arith, e)) (ground (arith, e)) p.3) [ ]
      | inr e ↦ ground (arith, e)
    ]
not_above-parts (String.◌∷◌ c (String.◌∷◌ d (String.◌∷◌ e a))) b p = ground (arith, p)

pub parts-ne : (a b t : String) → count_rune 0x2f t ≡ 0 → text_beq (path_of a b) t ≡ false
unfolding count_rune
parts-ne a b t flat = elim (Bool-cases (text_beq (path_of a b) t)) [
  | inl e ↦
      let same = ap (count_rune 0x2f) ((text_beq_iff (path_of a b) t).0 e) in
      elim (no_slash_clash (count_rune 0x2f a) (count_rune 0x2f b)
        (sym (count_rune-append 0x2f a (append "/" b)) ∙ same ∙ flat)) [ ]
  | inr e ↦ e
]

has_dots-parts : (a b : String) → IsPart a → IsPart b → has_dots (a ∷ b ∷ []) ≡ false
unfolding has_dots
has_dots-parts a b p q = ground (arith, p, q)

is_local-parts : (a b : String) → IsPart a → IsPart b → is_local (path_of a b) ≡ true
unfolding is_local count_rune
is_local-parts a b p q =
    rw (split-parts a b p q, is_local)
      (rw (has_dots-parts a b p q) (
        ground (
          arith,
          part-relative a b p,
          given-parts a b,
          parts-ne a b ".." refl,
          not_above-parts a b p,
        )))

pub both_true : (a b : Bool) → (a && b) ≡ true → (a ≡ true) × (b ≡ true)
both_true a b h = ground (arith, h)

pub join_path-parts : (a b : String) → IsPart a → IsPart b → join_path a b ≡ clean (path_of a b)
unfolding join_path
join_path-parts a b p q = rw (p.1, join_path) (rw q.1 refl)

-- Behind the tests of the segments, the second test of the path never fails.
pub template_relative_path-segments :
    (name version : String)
    → template_relative_path name version ≡ (
        if is_template_path_segment name && is_template_path_segment version
        then ok (path_of name (append version ".tmpl"))
        else err (unsafe_path name version))
unfolding template_relative_path
template_relative_path-segments name version =
    elim (Bool-cases (is_template_path_segment name && is_template_path_segment version)) [
      | inr e ↦ rw (e, template_relative_path) refl
      | inl e ↦
          let file = append version ".tmpl" in
          let both =
            both_true (is_template_path_segment name) (is_template_path_segment version) e in
          let p = segment-IsPart name both.0 in
          let q = template-IsPart version both.1 in
          let cleaned = clean-parts name file p q in
          let made = ap clean (join_path-parts name file p q ∙ cleaned) ∙ cleaned in
          rw (e, template_relative_path) (rw made (rw (is_local-parts name file p q) refl))
    ]

-- ===== src/Prompt/Paths/Segments.antt =====
-- A segment of a template's path has no slash.

use Prim.Native.String.{String}
use ash_jazz_ai_agent.Prelude.{true, false, ◌≡◌, refl, subst, arith, Bool-cases, inl, inr}
use ash_jazz_ai_agent.Prelude.Substring.{count_rune, has_prefix, trim_right_rune}
use ash_jazz_ai_agent.Prelude.Text.{is_empty, text_beq, text_beq_iff}
use ash_jazz_ai_agent.Prompt.Paths.{or_slash, is_local, after_last, base, is_template_path_segment}

after_last-no_slash : (s : String) → count_rune 0x2f (after_last s) ≡ 0
unfolding after_last count_rune
after_last-no_slash String.[] = refl
after_last-no_slash (String.◌∷◌ c s) = ground (arith, after_last-no_slash s)

or_slash-no_slash :
    (t : String)
    → text_beq (or_slash t) "/" ≡ false
    → count_rune 0x2f t ≡ 0
    → count_rune 0x2f (or_slash t) ≡ 0
or_slash-no_slash String.[] h n = ground (arith, h)
or_slash-no_slash (String.◌∷◌ c t) h n = n

base-no_slash : (s : String) → text_beq (base s) "/" ≡ false → count_rune 0x2f (base s) ≡ 0
unfolding base count_rune
base-no_slash String.[] h = refl
base-no_slash (String.◌∷◌ c s) h =
    let last = after_last (trim_right_rune 0x2f (String.◌∷◌ c s)) in
    or_slash-no_slash last h (after_last-no_slash (trim_right_rune 0x2f (String.◌∷◌ c s)))

slash-rooted : (s : String) → text_beq s "/" ≡ true → has_prefix s "/" ≡ false → ⊥
unfolding has_prefix
slash-rooted s e r =
    let clash : true ≡ false = subst (λ t. has_prefix t "/" ≡ false) ((text_beq_iff s "/").0 e) r in
    ground (arith, clash)

-- What a segment is, by its own tests.
pub segment-parts :
    (s : String)
    → is_template_path_segment s ≡ true
    → (is_empty s ≡ false)
      × (text_beq s "." ≡ false)
      × (text_beq s ".." ≡ false)
      × (has_prefix s "/" ≡ false)
      × (base s ≡ s)
unfolding is_template_path_segment is_local
segment-parts s h = ground (arith, h, text_beq_iff (base s) s)

pub segment-no_slash : (s : String) → is_template_path_segment s ≡ true → count_rune 0x2f s ≡ 0
segment-no_slash s h =
    let (_, _, _, relative, same) = segment-parts s h in
    elim (Bool-cases (text_beq (base s) "/")) [
      | inl e ↦ elim (slash-rooted s (ground (arith, e, same)) relative) [ ]
      | inr e ↦ subst (λ t. count_rune 0x2f t ≡ 0) same (base-no_slash s e)
    ]

-- ===== src/Prompt/Paths/FileNames.antt =====
-- The segments of a template's path are the names of files.
use ash_jazz_ai_agent.Prelude.{
  Bool, true, false, not, ◌&&◌, [], ◌∷◌, ◌≡◌, ◌==◌, refl, ap, sym, ◌∙◌, arith, if◌then◌else◌,
  Bool-cases, inl, inr,
}
use Prim.Native.Char.{Char}
use Prim.Native.String.{String}
use ash_jazz_ai_agent.Prelude.Substring.{cons_kept, count_rune, has_prefix, trim_right_rune}
use ash_jazz_ai_agent.Prelude.Text.{append, is_empty, text_beq, text_beq_iff}
use ash_jazz_ai_agent.Errors.{ok, err}
use ash_jazz_ai_agent.Prompt.Paths.{
  or_slash, has_dots, is_local, after_last, base, is_template_path_segment, unsafe_path,
  template_relative_path,
}
use ash_jazz_ai_agent.Prompt.Paths.Containment.{
  IsPart, path_of, segment-IsPart, split-no_slash, template_relative_path-segments,
}

flat-tail : (c : Char) (s : String) → count_rune 0x2f (String.◌∷◌ c s) ≡ 0 → count_rune 0x2f s ≡ 0
unfolding count_rune
flat-tail c s h = ground (arith, h)

trim-no_slash : (s : String) → count_rune 0x2f s ≡ 0 → trim_right_rune 0x2f s ≡ s
unfolding count_rune trim_right_rune
trim-no_slash String.[] h = refl
trim-no_slash (String.◌∷◌ c String.[]) h = ground (arith, h)
trim-no_slash (String.◌∷◌ c (String.◌∷◌ d s)) h =
    ap (cons_kept 0x2f c) (trim-no_slash (String.◌∷◌ d s) (flat-tail c (String.◌∷◌ d s) h))

after_last-flat : (s : String) → count_rune 0x2f s ≡ 0 → after_last s ≡ s
unfolding count_rune after_last
after_last-flat String.[] h = refl
after_last-flat (String.◌∷◌ c s) h = ground (arith, h)

or_slash-given : (s : String) → is_empty s ≡ false → or_slash s ≡ s
or_slash-given s h = rw h refl

base-flat : (s : String) → is_empty s ≡ false → count_rune 0x2f s ≡ 0 → base s ≡ s
unfolding base
base-flat s given flat =
    rw (given, base)
      (rw (trim-no_slash s flat) (rw (after_last-flat s flat) (or_slash-given s given)))

no_prefix : (s : String) → count_rune 0x2f s ≡ 0 → has_prefix s "../" ≡ false
unfolding has_prefix count_rune
no_prefix String.[] h = refl
no_prefix (String.◌∷◌ c String.[]) h = ground arith
no_prefix (String.◌∷◌ c (String.◌∷◌ d String.[])) h = ground arith
no_prefix (String.◌∷◌ c (String.◌∷◌ d (String.◌∷◌ e s))) h = ground (arith, h)

no_root : (s : String) → count_rune 0x2f s ≡ 0 → has_prefix s "/" ≡ false
unfolding has_prefix count_rune
no_root String.[] h = refl
no_root (String.◌∷◌ c s) h = ground (arith, h)

no_dots : (s : String) → IsPart s → has_dots (s ∷ []) ≡ false
unfolding has_dots
no_dots s p = ground (arith, p)

is_local-part : (s : String) → IsPart s → is_local s ≡ true
unfolding is_local
is_local-part s p =
    rw (split-no_slash s p.0, is_local)
      (rw (no_dots s p) (ground (arith, p, no_root s p.0, no_prefix s p.0)))

-- A name of one file or directory: some text without a slash, but not `.` or `..`.
abbrev pub is_file_name : String → Bool
is_file_name s =
    not (is_empty s) && (count_rune 0x2f s == 0 && (not (text_beq s ".") && not (text_beq s "..")))

file_name-IsPart : (s : String) → is_file_name s ≡ true → IsPart s
unfolding count_rune
file_name-IsPart s h = ground (arith, h)

part-is_segment : (s : String) → IsPart s → is_template_path_segment s ≡ true
unfolding is_template_path_segment
part-is_segment s p =
    ground (arith, p, is_local-part s p, text_beq_iff (base s) s, base-flat s p.1 p.0)

part-is_file_name : (s : String) → IsPart s → is_file_name s ≡ true
part-is_file_name s p = ground (arith, p)

is_template_path_segment-eq : (s : String) → is_template_path_segment s ≡ is_file_name s
is_template_path_segment-eq s = elim (Bool-cases (is_file_name s)) [
  | inl f ↦ part-is_segment s (file_name-IsPart s f) ∙ sym f
  | inr f ↦ elim (Bool-cases (is_template_path_segment s)) [
    | inl g ↦ g ∙ sym (part-is_file_name s (segment-IsPart s g))
    | inr g ↦ g ∙ sym f
  ]
]

-- A name and a version give the path of the one file below the root that is called after them, when each is
-- a text without a slash and none of them is empty, `.` or `..`; every other name or version is refused.
pub template_relative_path-eq :
    (name version : String)
    → template_relative_path name version ≡ (
        if is_file_name name && is_file_name version
        then ok (path_of name (append version ".tmpl"))
        else err (unsafe_path name version))
template_relative_path-eq name version =
    rw (sym (is_template_path_segment-eq name)) (
      rw (sym (is_template_path_segment-eq version)) (template_relative_path-segments name version))

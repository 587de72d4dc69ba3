-- ===== src/Prompt/Paths.antt =====
-- pkg/ai/prompt/filesystem.go, templateRelativePath and isTemplatePathSegment, with Clean, Join, Base
-- and IsLocal of path/filepath as they are on Unix.
pub mod Containment
pub mod FileNames
pub mod Segments
pub mod Tests
use Prim.Native.Nat.{ℕ}
use Prim.Native.Char.{Char, code}
use Prim.Native.String.{String}
use ash_jazz_ai_agent.Prelude.{
  Bool, true, false, not, ◌&&◌, ◌||◌, List, [], ◌∷◌, reverse, Option, none, some, ◌==◌,
  if◌then◌else◌,
}
use ash_jazz_ai_agent.Prelude.Substring.{count_rune, has_prefix, join, trim_right_rune}
use ash_jazz_ai_agent.Prelude.Text.{append, is_empty, text_beq}
use ash_jazz_ai_agent.Errors.{Error, Sentinel, sentinel, wrapf, Result, ok, err}

abbrev pub is_slash : Char → Bool
is_slash c = code c == 0x2f

abbrev pub cons_first : Char → List String → List String
cons_first c [] = String.◌∷◌ c String.[] ∷ []
cons_first c (part ∷ parts) = String.◌∷◌ c part ∷ parts

-- The parts between the slashes.
unfoldable pub split : String → List String
split String.[] = "" ∷ []
split (String.◌∷◌ c s) = let rest = split s in if is_slash c then "" ∷ rest else cons_first c rest

-- `..` drops the part in front of it, or stays when there is none in a relative path.
abbrev go_up : Bool → List String → List String
go_up rooted [] = if rooted then [] else ".." ∷ []
go_up rooted (top ∷ stack) = if text_beq top ".." then ".." ∷ top ∷ stack else stack

-- The parts that filepath.Clean keeps, the last one first.
unfoldable pub clean_parts : Bool → List String → List String → List String
clean_parts rooted [] stack = stack
clean_parts rooted (part ∷ parts) stack =
    let skipped = clean_parts rooted parts stack in
    let up = clean_parts rooted parts (go_up rooted stack) in
    let kept = clean_parts rooted parts (part ∷ stack) in
    if is_empty part || text_beq part "." then skipped else if text_beq part ".." then up else kept

abbrev pub or_dot : String → String
or_dot s = if is_empty s then "." else s

-- `filepath.Clean`
unfoldable pub clean : String → String
unfolding split clean_parts has_prefix join
clean path =
    let rooted = has_prefix path "/" in
    let kept = join "/" (reverse (clean_parts rooted (split path) [])) in
    if rooted then append "/" kept else or_dot kept

-- `filepath.Join` of two elements; an empty one is left out.
unfoldable pub join_path : String → String → String
unfolding clean
join_path a b =
    if is_empty a
    then (if is_empty b then "" else clean b)
    else if is_empty b
    then clean a
    else clean (append a (append "/" b))

unfoldable pub has_dots : List String → Bool
has_dots [] = false
has_dots (part ∷ parts) =
    let later = has_dots parts in text_beq part "." || (text_beq part ".." || later)

-- `filepath.IsLocal`
unfoldable pub is_local : String → Bool
unfolding clean split has_dots has_prefix
is_local path =
    let cleaned = if has_dots (split path) then clean path else path in
    not (has_prefix path "/")
    && (not (is_empty path) && (not (text_beq cleaned "..") && not (has_prefix cleaned "../")))

-- What stands behind the last slash.
unfoldable pub after_last : String → String
unfolding count_rune
after_last String.[] = String.[]
after_last (String.◌∷◌ c s) =
    let later = after_last s in
    if count_rune 0x2f s == 0 then (if is_slash c then s else String.◌∷◌ c s) else later

abbrev pub or_slash : String → String
or_slash s = if is_empty s then "/" else s

-- `filepath.Base`
unfoldable pub base : String → String
unfolding after_last trim_right_rune
base path = if is_empty path then "." else or_slash (after_last (trim_right_rune 0x2f path))

unfoldable pub is_template_path_segment : String → Bool
unfolding is_local base
is_template_path_segment value =
    not (is_empty value)
    && (not (text_beq value ".")
        && (not (text_beq value "..") && (is_local value && text_beq (base value) value)))

abbrev pub unsafe_path : String → String → Error
unsafe_path name version =
    wrapf "%w: name=%q version=%q" (name ∷ version ∷ []) (sentinel Sentinel.unsafe_template_path)

unfoldable pub template_relative_path : String → String → Result String
unfolding is_template_path_segment is_local clean join_path
template_relative_path name version =
    let path = clean (join_path name (append version ".tmpl")) in
    if is_template_path_segment name && is_template_path_segment version
    then (if is_local path then ok path else err (unsafe_path name version))
    else err (unsafe_path name version)

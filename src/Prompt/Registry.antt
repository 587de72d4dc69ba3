-- ===== src/Prompt/Registry.antt =====
-- pkg/ai/prompt/filesystem.go: Get and the reading of a template's file, and render.go. os.Root, its files and
-- text/template are parameters. `W` is the world that the file system acts on.
pub mod Symlinks
pub mod Tests
use ash_jazz_ai_agent.Prelude.{
  ℕ, zero, suc, String, Bool, true, false, ◌||◌, List, [], ◌∷◌, take, Option, none, some, ◌==◌,
  if◌then◌else◌,
}
use ash_jazz_ai_agent.Prelude.Substring.{count_rune, count_runes}
use ash_jazz_ai_agent.Prelude.Text.{is_empty, text_beq}
use ash_jazz_ai_agent.Errors.{Error, Sentinel, sentinel, wrapf, is, Result, ok, err}
use ash_jazz_ai_agent.Errors
use ash_jazz_ai_agent.Json.{Map}
use ash_jazz_ai_agent.Prompt.Paths.{
  is_slash, clean, join_path, after_last, unsafe_path, template_relative_path,
}

-- What the code calls of package os: OpenRoot, and of the root Lstat (whether a path is a symlink), Open
-- and Close; of a file, what io.ReadAll reads and its error, and Close.
pub record Files (W Root File : Type 0) : Type 0 where
  pub open_root : String → W → W × Result Root
  pub lstat : Root → String → W → Result Bool
  pub open_file : Root → String → W → W × Result File
  pub read_all : File → W → String × Option Error
  pub close_file : File → W → W × Option Error
  pub close_root : Root → W → W × Option Error

-- A context, by what its Err returns when a function starts and before it returns.
pub record Context : Type 0 where
  pub before : Option Error
  pub after : Option Error

abbrev pub context_err : (Context → Option Error) → Option Context → Option Error
context_err reading none = none
context_err reading (some ctx) = reading ctx

-- `errors.Join`; an error alone stays as it is, which errors.Is does not tell apart.
abbrev pub joined : Option Error → Option Error → Option Error
joined none later = later
joined (some e) none = some e
joined (some e) (some f) = some (Errors.join e f)

abbrev pub joined_to : Error → Option Error → Error
joined_to e none = e
joined_to e (some f) = Errors.join e f

-- The first result of `filepath.Split`: what stands up to the last slash, with it.
unfoldable pub dir_of : String → String
unfolding count_rune
dir_of String.[] = String.[]
dir_of (String.◌∷◌ c s) =
    let later = String.◌∷◌ c (dir_of s) in
    if count_rune 0x2f s == 0
    then (if is_slash c then String.◌∷◌ c String.[] else String.[])
    else later

abbrev add_given : String → List String → List String
add_given file segments = if is_empty file then segments else file ∷ segments

unfoldable pub split_steps : ℕ → String → List String → List String
unfolding dir_of after_last clean
split_steps zero path segments = segments
split_steps (suc fuel) path segments =
    let next = split_steps fuel (clean (dir_of path)) (add_given (after_last path) segments) in
    if text_beq path "." || is_empty path then segments else next

-- A local path gets shorter in each step, so that as many steps as it has runes are enough.
unfoldable pub split_path : String → List String
unfolding split_steps
split_path path = split_steps (count_runes path) path []

module _ {W Root File : Type 0} (files : Files W Root File) where
  abbrev pub component : Result Bool → Option Error → Option Error
  component (err e) later = some e
  component (ok true) later = some (sentinel Sentinel.unsafe_template_path)
  component (ok false) later = later

  unfoldable pub check_components : Root → W → String → List String → Option Error
  unfolding join_path
  check_components root w current [] = none
  check_components root w current (segment ∷ segments) =
      let path = join_path current segment in
      let later = check_components root w path segments in component (files.lstat root path w) later

  unfoldable pub reject_symlink_components : Root → W → String → Option Error
  unfolding check_components split_path
  reject_symlink_components root w path = check_components root w "" (split_path path)

  abbrev failed : Error → W × Option Error → W × Result String
  failed e (w, closed) = (w, err (joined_to e closed))

  abbrev settled : String → W → Option Error → W × Result String
  settled content w none = (w, ok content)
  settled content w (some e) = (w, err e)

  -- The file is closed before the root.
  abbrev closed_both : Root → String × Option Error → W × Option Error → W × Result String
  closed_both root (content, read) (w, file_closed) =
      let (w', root_closed) = files.close_root root w in
      settled content w' (joined (joined read file_closed) root_closed)

  abbrev read_opened : Root → W × Result File → W × Result String
  read_opened root (w, err e) = failed e (files.close_root root w)
  read_opened root (w, ok file) = closed_both root (files.read_all file w) (files.close_file file w)

  abbrev read_checked : Root → String → W → Option Error → W × Result String
  read_checked root path w (some e) = failed e (files.close_root root w)
  read_checked root path w none = read_opened root (files.open_file root path w)

  abbrev read_rooted : String → W × Result Root → W × Result String
  unfolding reject_symlink_components
  read_rooted path (w, err e) = (w, err (wrapf "open prompt root: %w" [] e))
  read_rooted path (w, ok root) = read_checked root path w (reject_symlink_components root w path)

  unfoldable pub read_template_file : String → String → W → W × Result String
  unfolding reject_symlink_components
  read_template_file root_path path w = read_rooted path (files.open_root root_path w)

pub record TextTemplate (Parsed : Type 0) : Type 0 where
  pub version : String
  pub template : Parsed

-- What Get makes of an error of readTemplateFile.
abbrev pub get_error : String → String → Error → Error
unfolding is
get_error name version e =
    if is e Sentinel.unsafe_template_path
    then unsafe_path name version
    else if is e Sentinel.not_exist
    then wrapf "%w: name=%q version=%q" (name ∷ version ∷ []) (sentinel Sentinel.template_not_found)
    else wrapf "load prompt template %q version %q: %w" (name ∷ version ∷ []) e

module _ {Parsed : Type 0} (parse : String → Result Parsed) where
  abbrev parsed_as : String → Result Parsed → Result (TextTemplate Parsed)
  parsed_as version (err e) = err (wrapf "parse prompt template version %q: %w" (version ∷ []) e)
  parsed_as version (ok template) = ok (record { version = version; template = template })

  abbrev pub new_text_template : String → String → Result (TextTemplate Parsed)
  new_text_template version source = parsed_as version (parse source)

  abbrev unless_ended : Option Error → String → String → Result (TextTemplate Parsed)
  unless_ended (some e) version source = err e
  unless_ended none version source = new_text_template version source

  module _ {W Root File : Type 0} (files : Files W Root File) where
    abbrev loaded :
        Option Context → String → String → W × Result String → W × Result (TextTemplate Parsed)
    unfolding is
    loaded ctx name version (w, err e) = (w, err (get_error name version e))
    loaded ctx name version (w, ok source) =
        (w, unless_ended (context_err (λ c. c.after) ctx) version source)

    abbrev located :
        String
        → Option Context
        → String
        → String
        → W
        → Result String
        → W × Result (TextTemplate Parsed)
    unfolding is read_template_file
    located root_path ctx name version w (err e) = (w, err e)
    located root_path ctx name version w (ok path) =
        loaded ctx name version (read_template_file files root_path path w)

    -- (*FilesystemRegistry).Get of a registry with this root.
    unfoldable pub get :
        String → Option Context → String → String → W → W × Result (TextTemplate Parsed)
    unfolding is template_relative_path read_template_file
    get root_path ctx name version w = elim (context_err (λ c. c.before) ctx) [
      | some e ↦ (w, err e)
      | none ↦ located root_path ctx name version w (template_relative_path name version)
    ]

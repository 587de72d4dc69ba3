-- ===== src/Prompt/Registry/Symlinks.antt =====
-- Get refuses a template behind a symlink.
use ash_jazz_ai_agent.Prelude.{
  ℕ, suc, ◌-◌, ◌≤◌, String, Bool, true, false, List, [], ◌∷◌, Option, none, some, ◌≡◌, refl, ap,
  ◌∙◌, arith,
}
use ash_jazz_ai_agent.Prelude.Substring.{count_rune, count_runes, has_prefix, join}
use ash_jazz_ai_agent.Prelude.Text.{append, is_empty, text_beq}
use ash_jazz_ai_agent.Errors.{Error, Sentinel, sentinel, is, Result, ok, err}
use ash_jazz_ai_agent.Prompt.Paths.{
  split, clean_parts, clean, after_last, join_path, is_template_path_segment, unsafe_path,
}
use ash_jazz_ai_agent.Prompt.Paths.Containment.{
  IsPart, path_of, given-parts, segment-IsPart, template-IsPart, split-no_slash, split-append,
  part-relative, parts-ne, or_dot-given, clean-parts, join_path-parts, count_rune-append,
  count_runes-append, template_relative_path-segments,
}
use ash_jazz_ai_agent.Prompt.Registry.{
  Files, Context, context_err, dir_of, split_steps, split_path, check_components,
  reject_symlink_components, component, joined_to, get_error, read_template_file, get,
}

split-last :
    (a b : String)
    → count_rune 0x2f b ≡ 0
    → (dir_of (path_of a b) ≡ append a "/") × (after_last (path_of a b) ≡ b)
unfolding dir_of after_last count_rune
split-last String.[] b h = ground (arith, h)
split-last (String.◌∷◌ c a) b h =
    ground (arith, h, split-last a b h, count_rune-append 0x2f a (append "/" b))

split-only : (b : String) → count_rune 0x2f b ≡ 0 → (dir_of b ≡ "") × (after_last b ≡ b)
unfolding dir_of after_last count_rune
split-only String.[] h = (refl, refl)
split-only (String.◌∷◌ c b) h = ground (arith, h)

relative : (a : String) → IsPart a → has_prefix a "/" ≡ false
unfolding has_prefix count_rune
relative String.[] p = refl
relative (String.◌∷◌ c a) p = ground (arith, p)

clean_parts-one :
    (a : String)
    → IsPart a
    → (clean_parts false (a ∷ "" ∷ []) [] ≡ a ∷ []) × (clean_parts false (a ∷ []) [] ≡ a ∷ [])
unfolding clean_parts
clean_parts-one a p = (ground (arith, p), ground (arith, p))

clean-dir : (a : String) → IsPart a → clean (append a "/") ≡ a
unfolding clean join split
clean-dir a p =
    rw (part-relative a "" p, clean)
      (rw (split-append a "" p.0) (rw (clean_parts-one a p).0 (or_dot-given a p.1)))

clean-part : (a : String) → IsPart a → clean a ≡ a
unfolding clean join
clean-part a p =
    rw (relative a p, clean)
      (rw (split-no_slash a p.0) (rw (clean_parts-one a p).1 (or_dot-given a p.1)))

cleaned_empty : clean "" ≡ "."
unfolding clean
cleaned_empty = refl

step :
    (n : ℕ) (path next file : String) (segments : List String)
    → text_beq path "." ≡ false
    → is_empty path ≡ false
    → clean (dir_of path) ≡ next
    → after_last path ≡ file
    → is_empty file ≡ false
    → split_steps (suc n) path segments ≡ split_steps n next (file ∷ segments)
unfolding split_steps
step n path next file segments dot given up last kept =
    rw (dot, split_steps) (rw given (rw up (rw last (rw kept refl))))

three_steps :
    (n : ℕ) (a b : String)
    → IsPart a
    → IsPart b
    → split_steps (suc (suc (suc n))) (path_of a b) [] ≡ a ∷ b ∷ []
unfolding split_steps count_rune
three_steps n a b p q =
    let (dir, last) = split-last a b q.0 in
    let (above, only) = split-only a p.0 in
    let up = ap clean dir ∙ clean-dir a p in
    let top : clean (dir_of a) ≡ "." = ap clean above ∙ cleaned_empty in
    step (suc (suc n)) (path_of a b) a b [] (parts-ne a b "." refl) (given-parts a b) up last q.1
    ∙ step (suc n) a "." a (b ∷ []) p.2 p.1 top only p.1

more_than_two : (n : ℕ) → 3 ≤ n → n ≡ suc (suc (suc (n - 3)))
more_than_two n h = omega (arith, h)

given-count : (s : String) → is_empty s ≡ false → 1 ≤ count_runes s
given-count String.[] h = ground (arith, h)
given-count (String.◌∷◌ c s) h = omega arith

long-path : (a b : String) → IsPart a → IsPart b → 3 ≤ count_runes (path_of a b)
long-path a b p q =
    omega (arith, count_runes-append a (append "/" b), given-count a p.1, given-count b q.1)

split_path-parts : (a b : String) → IsPart a → IsPart b → split_path (path_of a b) ≡ a ∷ b ∷ []
unfolding split_path
split_path-parts a b p q =
    let fuel = more_than_two (count_runes (path_of a b)) (long-path a b p q) in
    ap (λ n. split_steps n (path_of a b) []) fuel
    ∙ three_steps (count_runes (path_of a b) - 3) a b p q

-- Whether the directory, or the file in it, is a symlink.
abbrev pub is_linked : Result Bool → Result Bool → Bool
is_linked (err e) file = false
is_linked (ok true) file = true
is_linked (ok false) (err e) = false
is_linked (ok false) (ok linked) = linked

first_join : (a : String) → IsPart a → join_path "" a ≡ a
unfolding join_path
first_join a p = rw p.1 (clean-part a p)

module _ {W Root File : Type 0} (files : Files W Root File) where
  component-linked :
      (dir file : Result Bool)
      → is_linked dir file ≡ true
      → component files dir (component files file none)
        ≡ some (sentinel Sentinel.unsafe_template_path)
  component-linked (err e) file h = ground (arith, h)
  component-linked (ok true) file h = refl
  component-linked (ok false) (err e) h = ground (arith, h)
  component-linked (ok false) (ok true) h = refl
  component-linked (ok false) (ok false) h = ground (arith, h)

  check_components-linked :
      (root : Root) (w : W) (a b : String)
      → IsPart a
      → IsPart b
      → is_linked (files.lstat root a w) (files.lstat root (path_of a b) w) ≡ true
      → check_components files root w "" (a ∷ b ∷ [])
        ≡ some (sentinel Sentinel.unsafe_template_path)
  unfolding check_components
  check_components-linked root w a b p q h =
      let second = join_path-parts a b p q ∙ clean-parts a b p q in
      rw (first_join a p)
        (rw second (component-linked (files.lstat root a w) (files.lstat root (path_of a b) w) h))

  read-linked :
      (root_path a b : String) (w w' : W) (root : Root)
      → IsPart a
      → IsPart b
      → files.open_root root_path w ≡ (w', ok root)
      → is_linked (files.lstat root a w') (files.lstat root (path_of a b) w') ≡ true
      → read_template_file files root_path (path_of a b) w ≡ (
          let (v, closed) = files.close_root root w' in
          (v, err (joined_to (sentinel Sentinel.unsafe_template_path) closed)))
  unfolding read_template_file reject_symlink_components
  read-linked root_path a b w w' root p q opened h =
      rw (opened, read_template_file)
        (rw (split_path-parts a b p q) (rw (check_components-linked root w' a b p q h) refl))

joined_to-unsafe :
    (name version : String) (closed : Option Error)
    → get_error name version (joined_to (sentinel Sentinel.unsafe_template_path) closed)
      ≡ unsafe_path name version
unfolding is
joined_to-unsafe name version none = refl
joined_to-unsafe name version (some e) = refl

module _ {W Root File Parsed : Type 0} (files : Files W Root File)
    (parse : String → Result Parsed) where
  -- Behind a name and a version that are segments, in a context that is not done, Get refuses a template
  -- whose directory or file Lstat reports as a symlink, whatever else the file system does. It has closed
  -- the root and opened nothing in it, and the error is the one for an unsafe path, even when the root
  -- does not close.
  pub get_linked :
      (root_path name version : String) (ctx : Option Context) (w w' : W) (root : Root)
      → context_err (λ c. c.before) ctx ≡ none
      → is_template_path_segment name ≡ true
      → is_template_path_segment version ≡ true
      → files.open_root root_path w ≡ (w', ok root)
      → is_linked
          (files.lstat root name w')
          (files.lstat root (path_of name (append version ".tmpl")) w')
        ≡ true
      → get parse files root_path ctx name version w
        ≡ ((files.close_root root w').0, err (unsafe_path name version))
  unfolding get
  get_linked root_path name version ctx w w' root live n v opened h =
      let file = append version ".tmpl" in
      let p = segment-IsPart name n in
      let q = template-IsPart version v in
      let (_, closed) = files.close_root root w' in
      rw (live, get)
        (rw (template_relative_path-segments name version) (
          rw n (
            rw v (
              rw (read-linked files root_path name file w w' root p q opened h) (
                ap (λ e. ((files.close_root root w').0, err e))
                  (joined_to-unsafe name version closed))))))

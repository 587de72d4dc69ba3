-- ===== src/Prompt/Registry/Tests.antt =====
-- Runs of Get on a directory with one file, and its theorem behind a symlink.
use Prim.Native.Nat.{ℕ, ◌+◌, ◌-◌}
use ash_jazz_ai_agent.Prelude.{String, [], ◌∷◌, none, some, ◌≡◌, refl, if◌then◌else◌}
use ash_jazz_ai_agent.Prelude.Text.{text_beq}
use ash_jazz_ai_agent.Errors.{Sentinel, sentinel, errorf, Result, ok, err}
use ash_jazz_ai_agent.Prompt.Paths.{is_template_path_segment, unsafe_path}
use ash_jazz_ai_agent.Prompt.Registry.{Files, split_path, get_error, get}
use ash_jazz_ai_agent.Prompt.Registry.Symlinks.{get_linked}

-- The world counts what is open; a root whose name is "bad" does not close.
abbrev files_of : String → Files ℕ String String
files_of link = record {
  open_root = λ root w. (w + 1, ok root);
  lstat = λ root path w. ok (text_beq path link);
  open_file = λ root path w.
      if text_beq path "chat/v1.tmpl"
      then (w + 1, ok "Hello")
      else (w, err (sentinel Sentinel.not_exist));
  read_all = λ file w. (file, none);
  close_file = λ file w. (w - 1, none);
  close_root = λ root w. (w - 1, if text_beq root "bad" then some (errorf "close" []) else none);
}

abbrev parse : String → Result String
parse source = ok source

segments : split_path "chat/v1.tmpl" ≡ "chat" ∷ "v1.tmpl" ∷ []
unfolding split_path
segments = refl

found :
    get parse (files_of "") "root" none "chat" "v1" 0
    ≡ (0, ok (record { version = "v1"; template = "Hello" }))
unfolding get
found = refl

missing :
    get parse (files_of "") "root" none "chat" "v2" 0
    ≡ (0, err (get_error "chat" "v2" (sentinel Sentinel.not_exist)))
unfolding get
missing = refl

get_linked_example :
    get parse (files_of "chat/v1.tmpl") "bad" none "chat" "v1" 0
    ≡ (0, err (unsafe_path "chat" "v1"))
unfolding is_template_path_segment
get_linked_example =
    get_linked (files_of "chat/v1.tmpl") parse "bad" "chat" "v1" none 0 1 "bad" refl refl refl refl
      refl

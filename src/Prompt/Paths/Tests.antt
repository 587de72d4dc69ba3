-- ===== src/Prompt/Paths/Tests.antt =====
-- Runs of the paths of templates, and their theorem at a concrete name.
use ash_jazz_ai_agent.Prelude.{false, ◌&&◌, ◌≡◌, refl, if◌then◌else◌}
use ash_jazz_ai_agent.Prelude.Text.{append}
use ash_jazz_ai_agent.Errors.{ok, err}
use ash_jazz_ai_agent.Prompt.Paths.{clean, is_local, unsafe_path, template_relative_path}
use ash_jazz_ai_agent.Prompt.Paths.Containment.{path_of}
use ash_jazz_ai_agent.Prompt.Paths.FileNames.{is_file_name, template_relative_path-eq}

cleaned : clean "a/./b//../c/" ≡ "a/c"
unfolding clean
cleaned = refl

escapes : is_local "a/../../b" ≡ false
unfolding is_local
escapes = refl

nested : template_relative_path "a/b" "v1" ≡ err (unsafe_path "a/b" "v1")
unfolding template_relative_path
nested = refl

found : template_relative_path "chat" "v1" ≡ ok "chat/v1.tmpl"
unfolding template_relative_path
found = refl

template_relative_path-eq_example : template_relative_path "chat" "v1" ≡ (
    if is_file_name "chat" && is_file_name "v1"
    then ok (path_of "chat" (append "v1" ".tmpl"))
    else err (unsafe_path "chat" "v1"))
template_relative_path-eq_example = template_relative_path-eq "chat" "v1"

-- ===== src/Prompt/Rendering.antt =====
-- pkg/ai/prompt/render.go: Render and the hash of what it renders. text/template and SHA-256 are parameters.
use Prim.Native.Nat.{ℕ, ◌-◌, ◌/◌, ◌%◌}
use Prim.Native.String.{String}
use ash_jazz_ai_agent.Prelude.{
  List, [], ◌∷◌, take, Option, none, some, ◌≡◌, ◌==◌, refl, if◌then◌else◌,
}
use ash_jazz_ai_agent.Prelude.Text.{append}
use ash_jazz_ai_agent.Errors.{Error, wrapf, Result, ok, err}
use ash_jazz_ai_agent.Json.{Map}
use ash_jazz_ai_agent.Prompt.Registry.{Context, context_err, TextTemplate}

-- The code point at an index, as a text.
rune_at : ℕ → String → String
rune_at n String.[] = String.[]
rune_at n (String.◌∷◌ c s) =
    let later = rune_at (n - 1) s in if n == 0 then String.◌∷◌ c String.[] else later

-- `hex.EncodeToString`
unfoldable encode_to_string : List ℕ → String
unfolding rune_at
encode_to_string [] = ""
encode_to_string (byte ∷ bytes) =
    append (rune_at (byte / 16) "0123456789abcdef")
      (append (rune_at (byte % 16) "0123456789abcdef") (encode_to_string bytes))

pub record Rendered : Type 0 where
  pub content : String
  pub version : String
  pub hash : String

-- `sha256` gives the bytes of the sum.
module _ (sha256 : String → List ℕ) where
  unfoldable short_content_hash : String → String
  unfolding encode_to_string
  short_content_hash content = encode_to_string (take 16 (sha256 content))

  -- What an execution has written by the time it fails is dropped.
  module _ {Parsed : Type 0} (execute : Parsed → Map → String × Option Error) where
    abbrev unless_ended : TextTemplate Parsed → String → Option Error → Result Rendered
    unfolding short_content_hash
    unless_ended t content (some e) = err e
    unless_ended t content none =
        ok (record { content = content; version = t.version; hash = short_content_hash content })

    abbrev executed : TextTemplate Parsed → Option Context → String × Option Error → Result Rendered
    unfolding short_content_hash
    executed t ctx (output, some e) =
        err (wrapf "render prompt template version %q: %w" (t.version ∷ []) e)
    executed t ctx (output, none) = unless_ended t output (context_err (λ c. c.after) ctx)

    unfoldable render : TextTemplate Parsed → Option Context → Map → Result Rendered
    unfolding short_content_hash
    render t ctx vars = elim (context_err (λ c. c.before) ctx) [
      | some e ↦ err e
      | none ↦ executed t ctx (execute t.template vars)
    ]

hashed : short_content_hash (λ s. 0xa1 ∷ 0x0f ∷ []) "x" ≡ "a10f"
unfolding short_content_hash
hashed = refl

rendered :
    render (λ s. []) (λ t vars. (t, none)) (record { version = "v1"; template = "Hello" }) none none
    ≡ ok (record { content = "Hello"; version = "v1"; hash = "" })
unfolding render
rendered = refl

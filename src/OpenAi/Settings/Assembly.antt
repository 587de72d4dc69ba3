-- ===== src/OpenAi/Settings/Assembly.antt =====
-- What NewProvider accepts, and what it makes of it.
use Prim.Native.Char.{Char, code}
use Prim.Native.String.{String}
use ash_jazz_ai_agent.Prelude.{
  ℕ, Bool, true, false, ◌&&◌, not, ◌≡◌, ◌==◌, refl, arith, Bool-cases, inl, inr,
}
use ash_jazz_ai_agent.Prelude.Int.{ℤ}
use ash_jazz_ai_agent.Prelude.Substring.{cons_kept, trim_right_rune}
use ash_jazz_ai_agent.Prelude.Text.{is_empty, is_blank, trim_space}
use ash_jazz_ai_agent.Errors.{Result, ok, err}
use ash_jazz_ai_agent.OpenAi.Settings.{Config, Provider, normalize_base_url, new_provider}

-- Is the last code point this one?
unfoldable pub ends_in : ℕ → String → Bool
ends_in n String.[] = false
ends_in n (String.◌∷◌ c String.[]) = code c == n
ends_in n (String.◌∷◌ c (String.◌∷◌ d s)) = ends_in n (String.◌∷◌ d s)

ends_in-cons_kept :
    (n : ℕ) (c : Char) (s : String) → ends_in n s ≡ false → ends_in n (cons_kept n c s) ≡ false
unfolding ends_in
ends_in-cons_kept n c String.[] h = elim (Bool-cases (code c == n)) [
  | inl e ↦ rw (e, cons_kept) refl
  | inr e ↦ rw (e, cons_kept) e
]
ends_in-cons_kept n c (String.◌∷◌ d s) h = h

ends_in-trim_right_rune : (n : ℕ) (s : String) → ends_in n (trim_right_rune n s) ≡ false
unfolding ends_in trim_right_rune
ends_in-trim_right_rune n String.[] = refl
ends_in-trim_right_rune n (String.◌∷◌ c s) =
    ends_in-cons_kept n c (trim_right_rune n s) (ends_in-trim_right_rune n s)

abbrev pub has_parts : Result (String × String) → Bool
has_parts (err e) = false
has_parts (ok (scheme, host)) = not (is_empty scheme) && not (is_empty host)

abbrev pub is_ok {ℓ} : {A : Type ℓ} → Result A → Bool
is_ok (ok a) = true
is_ok (err e) = false

module _ (parse_url : String → Result (String × String)) {Client : Type 0}
    (client_with_timeout : ℤ → Client) (config : Config Client) where
  -- A configuration is accepted exactly when its URL, without the spaces around it, is not empty and
  -- parses with a scheme and a host, and neither its key nor its default model is blank.
  pub is_ok-new_provider : is_ok (new_provider parse_url client_with_timeout config) ≡ (
      not (is_blank config.base_url)
      && (has_parts (parse_url (trim_space config.base_url))
          && (not (is_blank config.api_key) && not (is_blank config.default_model))))
  unfolding new_provider normalize_base_url
  is_ok-new_provider = ground arith

  -- A provider's URL does not end in a slash, so that the path follows it with one; its key and its
  -- default model are the configured ones without the spaces around them, and neither is empty.
  pub new_provider-IsReady :
      (p : Provider Client)
      → new_provider parse_url client_with_timeout config ≡ ok p
      → (ends_in 0x2f p.base_url ≡ false)
        × (p.api_key ≡ trim_space config.api_key)
        × (is_empty p.api_key ≡ false)
        × (p.default_model ≡ trim_space config.default_model)
        × (is_empty p.default_model ≡ false)
  unfolding new_provider normalize_base_url
  new_provider-IsReady p made =
      ground (arith, made, ends_in-trim_right_rune 0x2f (trim_space config.base_url))

-- ===== src/RateLimit/Isolation.antt =====
-- Each key has its own bucket, and a key with no bucket lets every call through.
use ash_jazz_ai_agent.Prelude.{
  ℕ, ◌≡◌, ◌∙◌, String, true, false, Option, none, some, arith, if◌then◌else◌, inl, inr,
  Option-cases, ◌||◌,
}
use ash_jazz_ai_agent.Prelude.Int.{ℤ, not_positive}
use ash_jazz_ai_agent.Prelude.Dict.{◌≟◌, ≟_refl, lookup, lookup-insert, lookup-erase, text_key}
use ash_jazz_ai_agent.Errors.{Error, ok}
use ash_jazz_ai_agent.RateLimit.{Machine, MemoryLimiter, allow_found, allow, configure, new_bucket}

module _ (m : Machine) where
  pub allow_found-other :
      (l : MemoryLimiter) (k j : String) (now : ℕ)
      → (k ≟ j) ≡ false
      → lookup j (allow_found m l k now (lookup k l)).0 ≡ lookup j l
  allow_found-other l k j now h = elim (Option-cases (lookup k l)) [
    | inl e ↦ rw e
    | inr (b, e) ↦ rw e (rw lookup-insert (rw h))
  ]

  -- A call of one key leaves the bucket of every other key as it was, whatever the outcome.
  pub allow_isolated :
      (cancelled : Option Error) (l l' : MemoryLimiter) (k j : String) (now : ℕ)
      → (k ≟ j) ≡ false
      → (allow m cancelled (some l) k now).0 ≡ some l'
      → lookup j l' ≡ lookup j l
  unfolding allow
  allow_isolated (some e) l l' k j now h q = ground arith
  allow_isolated none l l' k j now h q = ground (arith, allow_found-other l k j now h)

  -- A valid configuration gives its key a full bucket that starts now, an invalid one takes the key's
  -- bucket away; no other key's bucket changes.
  pub lookup-configure :
      (l l' : MemoryLimiter) (k j : String) (rate period : ℤ) (now : ℕ)
      → configure m (some l) k rate period now ≡ some l'
      → lookup j l' ≡ (
          if k ≟ j
          then (if not_positive rate || not_positive period
              then none
              else some (new_bucket m rate period now))
          else lookup j l)
  unfolding configure
  lookup-configure l l' k j rate period now h =
      ground (arith, lookup-insert k j (new_bucket m rate period now) l, lookup-erase k j l)

  -- After an invalid configuration the key lets every call through, and stays without a bucket.
  pub allow_unconfigured :
      (l l' : MemoryLimiter) (k : String) (rate period : ℤ) (now later : ℕ)
      → (not_positive rate || not_positive period) ≡ true
      → configure m (some l) k rate period now ≡ some l'
      → allow m none (some l') k later ≡ (some l', ok true)
  unfolding allow
  allow_unconfigured l l' k rate period now later bad h =
      let gone : lookup k l' ≡ none =
        lookup-configure l l' k k rate period now h ∙ rw (≟_refl k) (rw bad) in
      rw gone

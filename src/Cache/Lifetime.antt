-- ===== src/Cache/Lifetime.antt =====
-- How long an entry is exact, how long it then serves as a stale answer, and when it is gone.
use ash_jazz_ai_agent.Prelude.{
  ℕ, ◌+◌, ◌≤◌, ◌<◌, ◌≡◌, ◌∙◌, String, true, Option, none, some, arith, ap, ◌⊎◌,
}
use ash_jazz_ai_agent.Prelude.Int.{ℤ, pos, pos_part, ◌≤ℤ◌, not_positive}
use ash_jazz_ai_agent.Prelude.Dict.{≟_refl, lookup, insert, lookup-insert}
use ash_jazz_ai_agent.Cache.{
  Scope, Entry, Entries, Source, key_eq, new_memory_cache_key, source_for, marked, found, get, set,
  new_entry,
}

-- What a miss, a stale and an exact hit are worth.
abbrev pub rank : Option Source → ℕ
rank none = 0
rank (some Source.stale) = 1
rank (some Source.exact) = 2

-- An entry only ever gets older: from exact to stale to missing, never back.
pub source_for-antitone :
    (stale_ttl : ℤ) (e : Entry) (now later : ℕ)
    → now ≤ later
    → rank (source_for stale_ttl e later) ≤ rank (source_for stale_ttl e now)
unfolding source_for
source_for-antitone stale_ttl e now later h = ground arith

-- What `get` makes of the entry that `set` has just written under the same scope and key.
get-set :
    (stale_ttl ttl : ℤ) (es : Entries) (s : Scope) (key response : String) (t now : ℕ)
    → get stale_ttl none (set none (some es) s key response ttl t).0 s key now
      ≡ (marked stale_ttl now (new_entry key response ttl t), none)
unfolding get set
get-set stale_ttl ttl es s key response t now =
    let k = new_memory_cache_key s key in
    let e = new_entry key response ttl t in
    let written : lookup k (insert k e es) ≡ some e = lookup-insert k k e es ∙ rw (≟_refl k) in
    ap (λ o. (found stale_ttl now o, none)) written

module _ (stale_ttl ttl : ℤ) (es : Entries) (s : Scope) (key response : String) (t now : ℕ) where
  -- An entry whose lifetime is not positive stays exact for ever; another is exact until its
  -- lifetime has passed, the last moment included.
  pub get-set_exact :
      (not_positive ttl ≡ true) ⊎ (now ≤ t + pos_part ttl)
      → get stale_ttl none (set none (some es) s key response ttl t).0 s key now
        ≡ (some (new_entry key response ttl t), none)
  unfolding source_for
  get-set_exact h = get-set stale_ttl ttl es s key response t now ∙ ground arith

  -- After its lifetime an entry is a stale hit while the grace of the cache lasts.
  pub get-set_stale :
      pos 1 ≤ℤ ttl
      → t + pos_part ttl < now
      → now ≤ t + pos_part ttl + pos_part stale_ttl
      → get stale_ttl none (set none (some es) s key response ttl t).0 s key now
        ≡ (some (record (new_entry key response ttl t) { source = Source.stale }), none)
  unfolding source_for
  get-set_stale p h k = get-set stale_ttl ttl es s key response t now ∙ ground arith

  -- After both it is a miss without an error.
  pub get-set_expired :
      pos 1 ≤ℤ ttl
      → t + pos_part ttl + pos_part stale_ttl < now
      → get stale_ttl none (set none (some es) s key response ttl t).0 s key now ≡ (none, none)
  unfolding source_for
  get-set_expired p h = get-set stale_ttl ttl es s key response t now ∙ ground arith

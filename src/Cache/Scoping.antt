-- ===== src/Cache/Scoping.antt =====
-- No tenant and no user ever reads what was written in another scope.
use ash_jazz_ai_agent.Prelude.{
  ℕ, ◌≡◌, ◌≢◌, ◌⊎◌, inl, inr, refl, ◌∙◌, String, Bool, true, false, Option, none, some, ap,
  if◌then◌else◌,
}
use ash_jazz_ai_agent.Prelude.Int.{ℤ}
use ash_jazz_ai_agent.Prelude.Dict.{◌≟◌, lookup, insert, lookup-insert}
use ash_jazz_ai_agent.Errors.{Error}
use ash_jazz_ai_agent.Cache.{
  Scope, Entry, Entries, key_eq, new_memory_cache_key, found, get, set, new_entry,
}

not_written : (e old : Option Entry) (b : Bool) → b ≢ true → (if b then e else old) ≡ old
not_written e old true h = absurd (h refl)
not_written e old false h = refl

-- Scopes and keys that differ anywhere have different cache keys.
new_memory_cache_key-injective :
    (s s' : Scope) (key key' : String)
    → (s.tenant_id ≢ s'.tenant_id) ⊎ (s.user_scope ≢ s'.user_scope) ⊎ (key ≢ key')
    → new_memory_cache_key s key ≢ new_memory_cache_key s' key'
new_memory_cache_key-injective s s' key key' (inl h) e = h (ap (λ k. k.tenant_id) e)
new_memory_cache_key-injective s s' key key' (inr (inl h)) e = h (ap (λ k. k.user_scope) e)
new_memory_cache_key-injective s s' key key' (inr (inr h)) e = h (ap (λ k. k.key) e)

-- Writing under one tenant, user scope and key changes no read of another tenant, user scope or key,
-- whatever the key texts are, and whether or not either context is cancelled.
pub get-set_other :
    (stale_ttl ttl : ℤ) (cancelled reading : Option Error) (c : Option Entries) (s s' : Scope)
    (key key' response : String) (t now : ℕ)
    → (s.tenant_id ≢ s'.tenant_id) ⊎ (s.user_scope ≢ s'.user_scope) ⊎ (key ≢ key')
    → get stale_ttl reading (set cancelled c s key response ttl t).0 s' key' now
      ≡ get stale_ttl reading c s' key' now
unfolding get set
get-set_other stale_ttl ttl (some e) reading c s s' key key' response t now h = refl
get-set_other stale_ttl ttl none reading none s s' key key' response t now h = refl
get-set_other stale_ttl ttl none (some e) (some es) s s' key key' response t now h = refl
get-set_other stale_ttl ttl none none (some es) s s' key key' response t now h =
    let k = new_memory_cache_key s key in
    let k' = new_memory_cache_key s' key' in
    let e = new_entry key response ttl t in
    let kept : lookup k' (insert k e es) ≡ lookup k' es =
      lookup-insert k k' e es
      ∙ not_written (some e) (lookup k' es) (k ≟ k') (λ same.
        new_memory_cache_key-injective s s' key key' h ((key_eq.agree_iff k k').0 same)) in
    ap (λ o. (found stale_ttl now o, none)) kept

-- ===== src/Cache.antt =====
-- pkg/ai/cache/memory_fallback.go, with Scope and Entry of cache.go. Times are nanoseconds since the
-- zero time, which an entry without expiry holds; the clock's reading is an argument. The cache's
-- map is the state, none for the nil cache.
pub mod Lifetime
pub mod Scoping
pub mod Tests
use ash_jazz_ai_agent.Prelude.{
  ℕ, ◌+◌, String, Bool, true, false, ◌||◌, ◌&&◌, Option, none, some, [], leb, ltb, ◌==◌ as time_eq,
  if◌then◌else◌, ◌≡◌, ◌↔◌, refl, arith,
}
use ash_jazz_ai_agent.Prelude.Int.{ℤ, pos, pos_part, not_positive}
use ash_jazz_ai_agent.Prelude.Text.{text_beq, text_beq_iff}
use ash_jazz_ai_agent.Prelude.Dict.{Comparable, Dict, lookup, insert}
use ash_jazz_ai_agent.Errors.{Error}
use ash_jazz_ai_agent.Json.{Float64}

pub record Scope : Type 0 where
  pub tenant_id : String
  pub user_scope : String

pub data Source : Type 0 where
  exact stale : Source

pub record Entry : Type 0 where
  pub query_hash : String
  pub response : String
  pub score : Float64
  pub source : Source
  pub created_at : ℕ
  pub expires_at : ℕ

pub record MemoryCacheKey : Type 0 where
  pub tenant_id : String
  pub user_scope : String
  pub key : String

abbrev pub key_beq : MemoryCacheKey → MemoryCacheKey → Bool
key_beq a b =
    text_beq a.tenant_id b.tenant_id && (text_beq a.user_scope b.user_scope && text_beq a.key b.key)

pub key_beq_iff : (a b : MemoryCacheKey) → (key_beq a b ≡ true) ↔ (a ≡ b)
key_beq_iff a b = ground (
  arith,
  text_beq_iff a.tenant_id b.tenant_id,
  text_beq_iff a.user_scope b.user_scope,
  text_beq_iff a.key b.key,
)

instance abbrev pub key_eq : Comparable MemoryCacheKey
key_eq = record { agree = key_beq; agree_iff = key_beq_iff }

abbrev pub new_memory_cache_key : Scope → String → MemoryCacheKey
new_memory_cache_key s key = record {
  tenant_id = s.tenant_id;
  user_scope = s.user_scope;
  key = key;
}

abbrev pub Entries : Type 0
Entries = Dict MemoryCacheKey Entry

-- `now.Before(t) || now.Equal(t)`
abbrev not_after : ℕ → ℕ → Bool
not_after now t = ltb now t || time_eq now t

-- `sourceFor`; none is the source's `"", false`.
pub source_for : ℤ → Entry → ℕ → Option Source
source_for stale_ttl e now =
    if time_eq e.expires_at 0 || not_after now e.expires_at
    then some Source.exact
    else if not_positive stale_ttl
    then none
    else if not_after now (e.expires_at + pos_part stale_ttl)
    then some Source.stale
    else none

abbrev pub marked : ℤ → ℕ → Entry → Option Entry
marked stale_ttl now e = elim (source_for stale_ttl e now) [
  | none ↦ none
  | some s ↦ some (record e { source = s })
]

abbrev pub found : ℤ → ℕ → Option Entry → Option Entry
found stale_ttl now none = none
found stale_ttl now (some e) = marked stale_ttl now e

abbrev read_live : ℤ → Option Entries → MemoryCacheKey → ℕ → Option Entry
read_live stale_ttl none k now = none
read_live stale_ttl (some es) k now = found stale_ttl now (lookup k es)

-- `Get`: the entry that is hit, and the error; `cancelled` is ctx.Err().
pub get : ℤ → Option Error → Option Entries → Scope → String → ℕ → Option Entry × Option Error
unfolding source_for
get stale_ttl (some e) c s key now = (none, some e)
get stale_ttl none c s key now = (read_live stale_ttl c (new_memory_cache_key s key) now, none)

abbrev pub new_entry : String → String → ℤ → ℕ → Entry
new_entry key response ttl now = record {
  query_hash = key;
  response = response;
  score = record { bits = 0 };
  source = Source.exact;
  created_at = now;
  expires_at = if not_positive ttl then 0 else now + pos_part ttl;
}

-- `Set`: the cache afterwards, and the error.
pub set :
    Option Error → Option Entries → Scope → String → String → ℤ → ℕ → Option Entries × Option Error
set (some e) c s key response ttl now = (c, some e)
set none none s key response ttl now = (none, none)
set none (some es) s key response ttl now =
    (some (insert (new_memory_cache_key s key) (new_entry key response ttl now) es), none)

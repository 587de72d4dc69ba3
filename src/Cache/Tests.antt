-- ===== src/Cache/Tests.antt =====
-- Runs of the cache, and its theorems at concrete inputs.
use ash_jazz_ai_agent.Prelude.{◌≡◌, ◌≢◌, inl, inr, refl, none, some, [], arith}
use ash_jazz_ai_agent.Prelude.Int.{pos}
use ash_jazz_ai_agent.Prelude.Text.{text_beq_iff}
use ash_jazz_ai_agent.Prelude.Dict.{lookup}
use ash_jazz_ai_agent.Cache.{Scope, Entry, get, set, new_entry}
use ash_jazz_ai_agent.Cache.Scoping.{get-set_other}

abbrev acme : Scope
acme = record { tenant_id = "acme"; user_scope = "u1" }

abbrev other : Scope
other = record { tenant_id = "acme"; user_scope = "u2" }

abbrev entry : Entry
entry = new_entry "q" "answer" (pos 10) 100

missing_run : get (pos 5) none (some []) acme "q" 100 ≡ (none, none)
unfolding get lookup
missing_run = refl

users-ne : acme.user_scope ≢ other.user_scope
users-ne same = ground (arith, text_beq_iff "u1" "u2", same)

get-set_other_example :
    get (pos 5) none (set none (some []) acme "q" "answer" (pos 10) 100).0 other "q" 105
    ≡ get (pos 5) none (some []) other "q" 105
get-set_other_example =
    get-set_other (pos 5) (pos 10) none none (some []) acme other "q" "q" "answer" 100 105
      (inr (inl users-ne))

-- ===== src/Errors.antt =====
-- Go's error values (errors, fmt.Errorf) and pkg/ai/internal/apperror/errors.go.
mod Tests
use ash_jazz_ai_agent.Prelude.{
  String, List, Bool, true, false, ◌||◌, Option, none, some, ◌≡◌, ◌⊎◌, refl, inl, inr, arith,
}

-- The package variables that callers look for with errors.Is.
pub data Sentinel : Type 0 where
  circuit_open upstream rate_limit canceled deadline_exceeded : Sentinel
  caller app_upstream protocol internal : Sentinel
  template_not_found unsafe_template_path not_exist : Sentinel

-- A class is a string; any text but the four constants is `other`.
pub data Class : Type 0 where
  caller upstream protocol internal : Class
  other : String → Class

-- An error made from a format and its arguments, with no cause or with one (`%w`), two joined
-- errors, and a classified error of apperror with no cause or with one.
pub data Error : Type 0 where
  sentinel : Sentinel → Error
  errorf : String → List String → Error
  wrapf : String → List String → Error → Error
  join : Error → Error → Error
  classified : Class → String → Error
  classified_by : Class → String → Error → Error

pub data Result {ℓ} (A : Type ℓ) : Type ℓ where
  ok : A → Result A
  err : Error → Result A

pub Result-cases {ℓ} :
    {A : Type ℓ} (r : Result A) → ((e : Error) × (r ≡ err e)) ⊎ ((a : A) × (r ≡ ok a))
Result-cases (err e) = inl (e, refl)
Result-cases (ok a) = inr (a, refl)

abbrev pub sentinel_beq : Sentinel → Sentinel → Bool
sentinel_beq Sentinel.circuit_open Sentinel.circuit_open = true
sentinel_beq Sentinel.upstream Sentinel.upstream = true
sentinel_beq Sentinel.rate_limit Sentinel.rate_limit = true
sentinel_beq Sentinel.canceled Sentinel.canceled = true
sentinel_beq Sentinel.deadline_exceeded Sentinel.deadline_exceeded = true
sentinel_beq Sentinel.caller Sentinel.caller = true
sentinel_beq Sentinel.app_upstream Sentinel.app_upstream = true
sentinel_beq Sentinel.protocol Sentinel.protocol = true
sentinel_beq Sentinel.internal Sentinel.internal = true
sentinel_beq Sentinel.template_not_found Sentinel.template_not_found = true
sentinel_beq Sentinel.unsafe_template_path Sentinel.unsafe_template_path = true
sentinel_beq Sentinel.not_exist Sentinel.not_exist = true
sentinel_beq _ _ = false

-- apperror.sentinelForClass
abbrev pub sentinel_for_class : Class → Option Sentinel
sentinel_for_class Class.caller = some Sentinel.caller
sentinel_for_class Class.upstream = some Sentinel.app_upstream
sentinel_for_class Class.protocol = some Sentinel.protocol
sentinel_for_class Class.internal = some Sentinel.internal
sentinel_for_class (Class.other _) = none

abbrev matches_sentinel : Option Sentinel → Sentinel → Bool
matches_sentinel none t = false
matches_sentinel (some s) t = sentinel_beq t s

-- (*apperror.Error).Is
abbrev pub class_is : Class → Sentinel → Bool
class_is c target = matches_sentinel (sentinel_for_class c) target

-- errors.Is
unfoldable pub is : Error → Sentinel → Bool
is (sentinel s) target = sentinel_beq s target
is (errorf _ _) target = false
is (wrapf _ _ cause) target = is cause target
is (join a b) target = is a target || is b target
is (classified c _) target = class_is c target
is (classified_by c _ cause) target = class_is c target || is cause target

-- apperror.New
unfoldable pub new : Class → String → Option Error → Error
new c message none = classified c message
new c message (some cause) = classified_by c message cause

-- apperror.Wrap
unfoldable pub wrap : Class → String → Option Error → Option Error
wrap c message none = none
wrap c message (some cause) = some (new c message (some cause))

-- (*apperror.Error).Unwrap, and what errors.Unwrap finds in the other errors.
unfoldable pub unwrap : Error → Option Error
unwrap (sentinel _) = none
unwrap (errorf _ _) = none
unwrap (wrapf _ _ cause) = some cause
unwrap (join _ _) = none
unwrap (classified _ _) = none
unwrap (classified_by _ _ cause) = some cause

-- What `errors.Is` finds in an optional error.
abbrev pub is_any : Option Error → Sentinel → Bool
is_any none t = false
is_any (some e) t = is e t

-- A classified error answers to the sentinel of its class and to whatever its cause answers to, and
-- to nothing else; unwrapping gives the cause back.
pub is-new :
    (c : Class) (message : String) (cause : Option Error) (t : Sentinel)
    → (is (new c message cause) t ≡ (class_is c t || is_any cause t))
      × (unwrap (new c message cause) ≡ cause)
unfolding is new unwrap
is-new c message none t = (ground arith, refl)
is-new c message (some cause) t = (refl, refl)

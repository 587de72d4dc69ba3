-- ===== src/Resilience/CircuitBreaker/Concurrent.antt =====
-- Goroutines that share one breaker: each runs its function outside the lock, so that admissions and
-- ends of calls interleave in any order.
use ash_jazz_ai_agent.Prelude.{
  ℕ, suc, ◌+◌, ◌≤◌, ◌≡◌, List, [], ◌∷◌, ◌++◌, Bool, true, false, Option, none, some, arith, subst,
  ap,
}
use ash_jazz_ai_agent.Prelude.Int.{pos_part, sub_time}
use ash_jazz_ai_agent.Errors.{Error, Result, ok, err}
use ash_jazz_ai_agent.Resilience.CircuitBreaker.{
  Config, CircuitBreaker, new_circuit_breaker, before_call, after_call,
}
use ash_jazz_ai_agent.Resilience.CircuitBreaker.Invariant.{
  IsValid, new_circuit_breaker-IsValid, before_call-IsValid, after_call-IsValid,
}

-- The breaker, and the flags of the calls whose functions are running.
pub record World : Type 0 where
  pub breaker : CircuitBreaker
  pub running : List Bool

-- A call is refused, is admitted and starts its function, or ends wherever it stands among the others.
pub data Step (w : World) : World → Type 0 where
  refuse :
      (now : ℕ) (b : CircuitBreaker) (e : Error)
      → before_call w.breaker now ≡ (b, err e)
      → Step w (record w { breaker = b })
  admit :
      (now : ℕ) (b : CircuitBreaker) (probe : Bool)
      → before_call w.breaker now ≡ (b, ok probe)
      → Step w (record { breaker = b; running = probe ∷ w.running })
  finish :
      (now : ℕ) (probe : Bool) (cause : Option Error) (before after : List Bool)
      → w.running ≡ before ++ probe ∷ after
      → Step w
          (record { breaker = after_call w.breaker now probe cause; running = before ++ after })

pub data Reach (w : World) : World → Type 0 where
  here : Reach w w
  next : {u v : World} → Reach w u → Step u v → Reach w v

abbrev pub start : Config → World
start c = record { breaker = new_circuit_breaker c; running = [] }

abbrev pub probes : List Bool → ℕ
probes [] = 0
probes (true ∷ ps) = suc (probes ps)
probes (false ∷ ps) = probes ps

probes-append : (xs ys : List Bool) → probes (xs ++ ys) ≡ probes xs + probes ys
probes-append [] ys = omega arith
probes-append (true ∷ xs) ys = omega (arith, probes-append xs ys)
probes-append (false ∷ xs) ys = omega (arith, probes-append xs ys)

-- The breaker is valid, and every reserved probe slot belongs to a running probe.
pub record IsSound (w : World) : Type 0 where
  pub valid : IsValid w.breaker
  pub slots : w.breaker.half_open_in_flight ≤ probes w.running

before_call-slots :
    (b : CircuitBreaker) (now n : ℕ)
    → b.half_open_in_flight ≤ n
    → let (b', r) = before_call b now in
      b'.half_open_in_flight ≤ elim r [ ok p ↦ probes (p ∷ []) + n | err e ↦ n ]
unfolding before_call
before_call-slots b now n h = ground arith

after_call-slots :
    (b : CircuitBreaker) (now n : ℕ) (probe : Bool) (cause : Option Error)
    → b.half_open_in_flight ≤ probes (probe ∷ []) + n
    → (after_call b now probe cause).half_open_in_flight ≤ n
unfolding after_call
after_call-slots b now n true none h = ground arith
after_call-slots b now n true (some e) h = ground arith
after_call-slots b now n false none h = ground arith
after_call-slots b now n false (some e) h = ground arith

Step-IsSound : {w v : World} → Step w v → IsSound w → IsSound v
Step-IsSound {w} (refuse now b e r) s =
    let valid : IsValid b =
      subst (λ x. IsValid x.0) r (before_call-IsValid w.breaker now s.valid) in
    record {
      valid = valid;
      slots = ground (arith, before_call-slots w.breaker now (probes w.running) s.slots);
    }
Step-IsSound {w} (admit now b p r) s =
    let valid : IsValid b =
      subst (λ x. IsValid x.0) r (before_call-IsValid w.breaker now s.valid) in
    record {
      valid = valid;
      slots = ground (arith, before_call-slots w.breaker now (probes w.running) s.slots);
    }
Step-IsSound {w} (finish now p cause before after e) s = record {
  valid = after_call-IsValid w.breaker now p cause s.valid;
  slots = after_call-slots w.breaker now (probes (before ++ after)) p cause (
      ground (
        arith,
        s.slots,
        probes-append before after,
        probes-append before (p ∷ after),
        ap probes e,
      ));
}

IsSound-Reach : {w v : World} → IsSound w → Reach w v → IsSound v
IsSound-Reach s here = s
IsSound-Reach s (next r st) = Step-IsSound st (IsSound-Reach s r)

-- Whatever calls interleave on a new breaker, the breaker stays valid, and a half-open probe slot is
-- reserved only while a probe is running.
pub Reach-IsSound : (c : Config) (w : World) → Reach (start c) w → IsSound w
unfolding new_circuit_breaker
Reach-IsSound c w r =
    IsSound-Reach (record { valid = new_circuit_breaker-IsValid c; slots = omega arith }) r

abbrev pub IsAdmitted : CircuitBreaker × Result Bool → Type 0
IsAdmitted (b, ok p) = Unit
IsAdmitted (b, err e) = ⊥

before_call-IsAdmitted :
    (b : CircuitBreaker) (now : ℕ)
    → IsValid b
    → b.half_open_in_flight ≡ 0
    → pos_part b.config.recovery_timeout ≤ pos_part (sub_time now b.opened_at)
    → IsAdmitted (before_call b now)
unfolding before_call
before_call-IsAdmitted b now v z h = ground arith

-- The breaker never locks its callers out: once every call has ended and the recovery timeout has
-- passed since it was last opened, it admits the next call, in whatever state the calls left it.
pub Reach-IsAdmitted :
    (c : Config) (w : World) (now : ℕ)
    → Reach (start c) w
    → w.running ≡ []
    → pos_part w.breaker.config.recovery_timeout ≤ pos_part (sub_time now w.breaker.opened_at)
    → IsAdmitted (before_call w.breaker now)
Reach-IsAdmitted c w now r e h =
    let s : IsSound w = Reach-IsSound c w r in
    before_call-IsAdmitted w.breaker now s.valid (ground (arith, s.slots, ap probes e)) h

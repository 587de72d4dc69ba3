-- ===== src/Prelude/Dict.antt =====
-- Go maps as association lists: reading, writing and deleting by a key with a decided equality.
use mathlib.Core.Path.{◌≡◌, refl}
use mathlib.Core.Logic.{◌↔◌}
use mathlib.Core.Bool.{Bool, true}
use mathlib.Core.Option.{Option, none, some}
use mathlib.Core.List.{List, [], ◌∷◌}
use native.Mathlib.Omega.{arith}
use Prim.Native.String.{String}
use text.Mathlib.Text.{◌==◌ as text_same}
use text.Mathlib.TextEquality.{eq_iff}
use ash_jazz_ai_agent.Prelude.Tests.{if◌then◌else◌}

-- A comparable type: its `==`, and that it decides the identity of keys.
pub record Comparable {ℓ} (K : Type ℓ) : Type ℓ where
  pub agree : K → K → Bool
  pub agree_iff : (j k : K) → (agree j k ≡ true) ↔ (j ≡ k)

infix 50 ◌≟◌
abbrev pub ◌≟◌ {ℓ} : {K : Type ℓ} ⦃c : Comparable K⦄ → K → K → Bool
◌≟◌ ⦃c⦄ j k = c.agree j k

instance abbrev pub text_key : Comparable String
text_key = record { agree = text_same; agree_iff = eq_iff }

pub ≟_refl {ℓ} : {K : Type ℓ} ⦃c : Comparable K⦄ (k : K) → (k ≟ k) ≡ true
≟_refl ⦃c⦄ k = (c.agree_iff k k).1 refl

abbrev pub Dict {ℓ κ} : Type ℓ → Type κ → Type (ℓ ⊔ κ)
Dict K V = List (K × V)

module _ {ℓ κ} {K : Type ℓ} {V : Type κ} ⦃c : Comparable K⦄ where
  unfoldable pub lookup : K → Dict K V → Option V
  lookup wanted [] = none
  lookup wanted ((held, value) ∷ rest) = if held ≟ wanted then some value else lookup wanted rest

  -- `m[key] = value`
  unfoldable pub insert : K → V → Dict K V → Dict K V
  insert key value [] = (key, value) ∷ []
  insert key value (entry ∷ rest) =
      if entry.0 ≟ key then (key, value) ∷ rest else entry ∷ insert key value rest

  -- `delete(m, key)`, which has at most one entry to remove in a Go map
  unfoldable pub erase : K → Dict K V → Dict K V
  erase key [] = []
  erase key (entry ∷ rest) =
      let kept = erase key rest in if entry.0 ≟ key then kept else entry ∷ kept

  pub lookup-insert :
      (key wanted : K) (value : V) (d : Dict K V)
      → lookup wanted (insert key value d) ≡ (if key ≟ wanted then some value else lookup wanted d)
  unfolding lookup insert
  lookup-insert key wanted value [] = refl
  lookup-insert key wanted value (entry ∷ rest) = ground (
    arith,
    lookup-insert key wanted value rest,
    c.agree_iff entry.0 wanted,
    c.agree_iff entry.0 key,
    c.agree_iff key wanted,
  )

  pub lookup-erase :
      (key wanted : K) (d : Dict K V)
      → lookup wanted (erase key d) ≡ (if key ≟ wanted then none else lookup wanted d)
  unfolding lookup erase
  lookup-erase key wanted [] = ground arith
  lookup-erase key wanted (entry ∷ rest) = ground (
    arith,
    lookup-erase key wanted rest,
    c.agree_iff entry.0 wanted,
    c.agree_iff entry.0 key,
    c.agree_iff key wanted,
  )

-- ===== src/Prelude/Sort.antt =====
-- sort.Strings and sort.SliceStable: a stable sort by a comparison, and what it guarantees. Any
-- stable sort returns the same list, so that this one stands for the library's.
use mathlib.Core.Path.{◌≡◌, refl, ap, subst, ◌∙◌}
use mathlib.Core.Logic.{◌⊎◌, inl, inr}
use mathlib.Core.Bool.{Bool, true, false}
use mathlib.Core.List.{List, [], ◌∷◌, Permᴰ}
use mathlib.Core.List.Permᴰ
use native.Mathlib.Omega.{arith}
use ash_jazz_ai_agent.Prelude.Tests.{if◌then◌else◌, Bool-cases}
use ash_jazz_ai_agent.Prelude.Lists.{All}

-- A comparison that a sort accepts, on the items of which `P` holds.
pub record IsWeakOrder {ℓ κ} {A : Type ℓ} (P : A → Type κ) (less : A → A → Bool)
    : Type (ℓ ⊔ κ) where
  pub asym : (a b : A) → P a → P b → less a b ≡ true → less b a ≡ false
  pub cotrans : (a b c : A) → P a → P b → P c → less a c ≡ true → less b c ≡ false → less a b ≡ true

-- One of two items comes before the other.
abbrev pub Apart {ℓ} : {A : Type ℓ} → (A → A → Bool) → A → A → Type 0
Apart less a b = (less a b ≡ true) ⊎ (less b a ≡ true)

abbrev pub AllApart {ℓ} : {A : Type ℓ} → (A → A → Bool) → List A → Type 0
AllApart less [] = Unit {0}
AllApart less (x ∷ xs) = All (Apart less x) xs × AllApart less xs

module _ {ℓ κ} {A : Type ℓ} (P : A → Type κ) where
  pub All-perm : {xs ys : List A} → Permᴰ xs ys → All P xs → All P ys
  All-perm Permᴰ.nil h = h
  All-perm (Permᴰ.cons e p) h = (subst P e h.0, All-perm p h.1)
  All-perm (Permᴰ.swap e f) h = (subst P f h.1.0, (subst P e h.0, h.1.1))
  All-perm (Permᴰ.trans p q) h = All-perm q (All-perm p h)

module _ {ℓ} {A : Type ℓ} (less : A → A → Bool) where
  Apart-sym : {a b : A} → Apart less a b → Apart less b a
  Apart-sym (inl h) = inr h
  Apart-sym (inr h) = inl h

  pub AllApart-perm : {xs ys : List A} → Permᴰ xs ys → AllApart less xs → AllApart less ys
  AllApart-perm Permᴰ.nil h = h
  AllApart-perm (Permᴰ.cons {a = a} {l₂ = m} e p) h =
      (subst (λ z. All (Apart less z) m) e (All-perm (Apart less a) p h.0), AllApart-perm p h.1)
  AllApart-perm (Permᴰ.swap {a} {b} {a'} {b'} {l} e f) ((ab, al), (bl, rest)) =
      let ba = subst (Apart less b) e (Apart-sym ab) in
      let front = subst (λ z. Apart less z b') f ba in
      let later = subst (λ z. All (Apart less z) l) f bl in
      ((front, later), (subst (λ z. All (Apart less z) l) e al, rest))
  AllApart-perm (Permᴰ.trans p q) h = AllApart-perm q (AllApart-perm p h)

module _ {ℓ} {A : Type ℓ} (less : A → A → Bool) where
  -- In front of the first item that does not come before it.
  unfoldable pub place : A → List A → List A
  place a [] = a ∷ []
  place a (b ∷ bs) = if less b a then b ∷ place a bs else a ∷ b ∷ bs

  unfoldable pub sort : List A → List A
  unfolding place
  sort [] = []
  sort (x ∷ xs) = place x (sort xs)

  -- No item comes before its predecessor.
  abbrev pub IsSorted : List A → Type 0
  IsSorted [] = Unit {0}
  IsSorted (x ∷ []) = Unit {0}
  IsSorted (x ∷ y ∷ ys) = (less y x ≡ false) × IsSorted (y ∷ ys)

  pub place-perm : (a : A) (xs : List A) → Permᴰ (place a xs) (a ∷ xs)
  unfolding place
  place-perm a [] = Permᴰ.refl (a ∷ [])
  place-perm a (b ∷ bs) = elim (Bool-cases (less b a)) [
    | inl e ↦ rw e (Permᴰ.trans (Permᴰ.cons refl (place-perm a bs)) (Permᴰ.swap refl refl))
    | inr e ↦ rw e (Permᴰ.refl (a ∷ b ∷ bs))
  ]

  pub sort-perm : (xs : List A) → Permᴰ (sort xs) xs
  unfolding sort
  sort-perm [] = Permᴰ.nil
  sort-perm (x ∷ xs) = Permᴰ.trans (place-perm x (sort xs)) (Permᴰ.cons refl (sort-perm xs))

  module _ {κ} {P : A → Type κ} (order : IsWeakOrder P less) where
    place-IsSorted : (a : A) (xs : List A) → P a → All P xs → IsSorted xs → IsSorted (place a xs)
    unfolding place
    place-IsSorted a [] p h s = tt
    place-IsSorted a (b ∷ []) p h s = ground (arith, order.asym b a h.0 p)
    place-IsSorted a (b ∷ c ∷ cs) p h s =
        ground
          (arith, order.asym b a h.0 p, order.asym c a h.1.0 p, place-IsSorted a (c ∷ cs) p h.1 s.1)

    pub sort-IsSorted : (xs : List A) → All P xs → IsSorted (sort xs)
    unfolding sort
    sort-IsSorted [] h = tt
    sort-IsSorted (x ∷ xs) h =
        place-IsSorted x (sort xs) h.0 (All-perm P (Permᴰ.symm (sort-perm xs)) h.1)
          (sort-IsSorted xs h.1)

    place-place :
        (a b : A) (xs : List A)
        → P a
        → P b
        → All P xs
        → Apart less a b
        → place a (place b xs) ≡ place b (place a xs)
    unfolding place
    place-place a b [] p q h d = ground (arith, order.asym a b p q, order.asym b a q p)
    place-place a b (x ∷ xs) p q h d = ground (
      arith,
      order.asym a b p q,
      order.asym b a q p,
      order.cotrans x a b h.0 p q,
      order.cotrans x b a h.0 q p,
      order.asym x a h.0 p,
      order.asym x b h.0 q,
      place-place a b xs p q h.1 d,
    )

    -- A sort forgets the order of a list whose items are apart.
    pub sort-invariant :
        {xs ys : List A} → Permᴰ xs ys → All P xs → AllApart less xs → sort xs ≡ sort ys
    unfolding sort
    sort-invariant Permᴰ.nil h d = refl
    sort-invariant (Permᴰ.cons {b = b} {l₁ = l} e p) h d =
        ap (λ z. place z (sort l)) e ∙ ap (place b) (sort-invariant p h.1 d.1)
    sort-invariant (Permᴰ.swap {a} {b} {a'} {b'} {l} e f) h d =
        let later = All-perm P (Permᴰ.symm (sort-perm l)) h.1.1 in
        place-place a b (sort l) h.0 h.1.0 later d.0.0
        ∙ ap (λ z. place z (place a (sort l))) f
        ∙ ap (λ z. place a' (place z (sort l))) e
    sort-invariant (Permᴰ.trans p q) h d =
        sort-invariant p h d ∙ sort-invariant q (All-perm P p h) (AllApart-perm less p d)

-- ===== src/VectorDb/Ranking.antt =====
-- What Search returns: at most topK stored vectors that pass the filter and the threshold, best first,
-- and the same ones in whatever order the map gives its entries.
use mathlib.Core.List.{Permᴰ}
use mathlib.Core.List.Permᴰ
use ash_jazz_ai_agent.Prelude.{
  ℕ, zero, suc, String, Bool, true, false, List, [], ◌∷◌, map, take, Option, none, some, not, ◌&&◌,
  ◌≡◌, refl, subst, arith, if◌then◌else◌, All, Bool-cases, ◌⊎◌, inl, inr,
}
use ash_jazz_ai_agent.Prelude.Float.{Arithmetic, is_nan, less}
use ash_jazz_ai_agent.Prelude.Sort.{IsWeakOrder, Apart, AllApart, IsSorted}
use ash_jazz_ai_agent.Prelude.TextOrder.{less_text, less_text-IsWeakOrder}
use ash_jazz_ai_agent.Errors.{Error, Result, ok, err}
use ash_jazz_ai_agent.Json.{Value, Fields, no_field, field, Map, get_map, deep_equal, clone_map}
use ash_jazz_ai_agent.VectorDb.{Vector, Vectors, Query, Hit}
use ash_jazz_ai_agent.VectorDb.Search.{
  matches_fields, matches_filter, before, score_of, hit_of, is_hit, collect,
}

-- A hit whose score is a number.
abbrev pub IsScored : Hit → Type 0
IsScored h = is_nan h.score ≡ false

before-asym : (a b : Hit) → IsScored a → IsScored b → before a b ≡ true → before b a ≡ false
unfolding before
before-asym a b p q h = ground (arith, less_text-IsWeakOrder.asym a.id b.id tt tt)

before-cotrans :
    (a b c : Hit)
    → IsScored a
    → IsScored b
    → IsScored c
    → before a c ≡ true
    → before b c ≡ false
    → before a b ≡ true
unfolding before
before-cotrans a b c p q r h k =
    ground (arith, less_text-IsWeakOrder.cotrans a.id b.id c.id tt tt tt)

pub before-IsWeakOrder : IsWeakOrder IsScored before
before-IsWeakOrder = record { asym = before-asym; cotrans = before-cotrans }

-- Hits with numbers for scores are apart when their identifiers are.
before-Apart : (a b : Hit) → IsScored a → IsScored b → Apart less_text a.id b.id → Apart before a b
unfolding before
before-Apart a b p q (inl h) = ground arith
before-Apart a b p q (inr h) = ground arith

-- An entry of the map.
abbrev pub IsIn : String × Vector → Vectors → Type 0
IsIn entry [] = ⊥
IsIn entry (e ∷ m) = (entry ≡ e) ⊎ IsIn entry m

pub take-All {ℓ κ} :
    {A : Type ℓ} (P : A → Type κ) (n : ℕ) (xs : List A) → All P xs → All P (take n xs)
take-All P zero xs h = tt
take-All P (suc n) [] h = h
take-All P (suc n) (x ∷ xs) h = (h.0, take-All P n xs h.1)

pub take-IsSorted {ℓ} :
    {A : Type ℓ} (f : A → A → Bool) (n : ℕ) (xs : List A) → IsSorted f xs → IsSorted f (take n xs)
take-IsSorted f zero xs h = tt
take-IsSorted f (suc n) [] h = tt
take-IsSorted f (suc zero) (x ∷ xs) h = tt
take-IsSorted f (suc (suc n)) (x ∷ []) h = tt
take-IsSorted f (suc (suc n)) (x ∷ y ∷ ys) h = (h.0, take-IsSorted f (suc n) (y ∷ ys) h.1)

-- The filter asks for a value of the metadata under each of its keys, equal to its own.
abbrev pub has_value : Map → String → Value → Bool
has_value metadata key want = elim (get_map key metadata) [
  | none ↦ false
  | some got ↦ deep_equal got want
]

abbrev pub passes_all : Map → Fields → Bool
passes_all metadata no_field = true
passes_all metadata (field key want f) = has_value metadata key want && passes_all metadata f

abbrev pub passes : Map → Map → Bool
passes metadata none = true
passes metadata (some f) = passes_all metadata f

-- A stored vector answers a query when it passes the filter and its score is not below the threshold.
abbrev pub answers : Arithmetic → Query → Vector → Bool
answers machine q v =
    passes (clone_map v.metadata) q.filter && not (less (score_of machine q v) q.threshold)

matches_fields-passes :
    (metadata : Map) (f : Fields) → matches_fields metadata f ≡ passes_all metadata f
unfolding matches_fields
matches_fields-passes metadata no_field = refl
matches_fields-passes metadata (field key want f) = ground (arith, matches_fields-passes metadata f)

matches_filter-passes :
    (metadata filter : Map) → matches_filter metadata filter ≡ passes metadata filter
matches_filter-passes metadata none = refl
matches_filter-passes metadata (some f) = matches_fields-passes metadata f

is_hit-answers :
    (machine : Arithmetic) (q : Query) (v : Vector) → is_hit machine q v ≡ answers machine q v
unfolding is_hit
is_hit-answers machine q v = rw (matches_filter-passes (clone_map v.metadata) q.filter) refl

module _ (machine : Arithmetic) (q : Query) where
  -- A hit is made from a stored vector that passes the filter and is not below the threshold.
  abbrev pub IsAnswer : Vectors → Hit → Type 0
  IsAnswer m h =
      (entry : String × Vector) × IsIn entry m
      × (h ≡ hit_of machine q entry.1)
      × (passes (clone_map entry.1.metadata) q.filter ≡ true)
      × (less h.score q.threshold ≡ false)

  IsAnswer-cons : (e : String × Vector) (m : Vectors) (h : Hit) → IsAnswer m h → IsAnswer (e ∷ m) h
  IsAnswer-cons e m h (entry, i, a, f, t) = (entry, inr i, a, f, t)

  All-IsAnswer-cons :
      (e : String × Vector) (m : Vectors) (hs : List Hit)
      → All (IsAnswer m) hs
      → All (IsAnswer (e ∷ m)) hs
  All-IsAnswer-cons e m [] a = tt
  All-IsAnswer-cons e m (h ∷ hs) a = (IsAnswer-cons e m h a.0, All-IsAnswer-cons e m hs a.1)

  -- The hits among the entries, with no context in the way.
  unfoldable pub hits_in : Vectors → List Hit
  hits_in [] = []
  hits_in ((_, v) ∷ rest) =
      let later = hits_in rest in if answers machine q v then hit_of machine q v ∷ later else later

  pub hits_in-IsAnswer : (m : Vectors) → All (IsAnswer m) (hits_in m)
  unfolding hits_in
  hits_in-IsAnswer [] = tt
  hits_in-IsAnswer ((k, v) ∷ rest) =
      let later = All-IsAnswer-cons (k, v) rest (hits_in rest) (hits_in-IsAnswer rest) in
      elim (Bool-cases (answers machine q v)) [
        | inl e ↦ rw e (((k, v), inl refl, refl, ground (arith, e), ground (arith, e)), later)
        | inr e ↦ rw e later
      ]

  -- The loop returns these hits, or the first error that the context gives.
  abbrev pub IsCollected : Vectors → Result (List Hit) → Type 0
  IsCollected m (err e) = Unit {0}
  IsCollected m (ok hits) = hits ≡ hits_in m

  pub collect-IsCollected :
      (cancelled : ℕ → Option Error) (n : ℕ) (m : Vectors)
      → IsCollected m (collect machine cancelled q n m)
  unfolding collect hits_in
  collect-IsCollected cancelled n [] = refl
  collect-IsCollected cancelled n ((k, v) ∷ rest) =
      ground (arith, is_hit-answers machine q v, collect-IsCollected cancelled (suc n) rest)

  pub collect_live : (n : ℕ) (m : Vectors) → collect machine (λ _. none) q n m ≡ ok (hits_in m)
  unfolding collect hits_in
  collect_live n [] = refl
  collect_live n ((k, v) ∷ rest) =
      ground (arith, is_hit-answers machine q v, collect_live (suc n) rest)

  hits_in-cons :
      (e : String × Vector) (c d : Vectors)
      → Permᴰ (hits_in c) (hits_in d)
      → Permᴰ (hits_in (e ∷ c)) (hits_in (e ∷ d))
  unfolding hits_in
  hits_in-cons e c d p = elim (Bool-cases (answers machine q e.1)) [
    | inl h ↦ rw h (Permᴰ.cons refl p)
    | inr h ↦ rw h p
  ]

  hits_in-swap :
      (x y : String × Vector) (m : Vectors) → Permᴰ (hits_in (x ∷ y ∷ m)) (hits_in (y ∷ x ∷ m))
  unfolding hits_in
  hits_in-swap x y m = elim (Bool-cases (answers machine q x.1)) [
    | inl h ↦ elim (Bool-cases (answers machine q y.1)) [
      | inl k ↦ rw h (rw k (Permᴰ.swap refl refl))
      | inr k ↦ rw h (rw k (Permᴰ.refl (hit_of machine q x.1 ∷ hits_in m)))
    ]
    | inr h ↦ rw h (Permᴰ.refl (hits_in (y ∷ m)))
  ]

  pub hits_in-perm : {c d : Vectors} → Permᴰ c d → Permᴰ (hits_in c) (hits_in d)
  hits_in-perm Permᴰ.nil = Permᴰ.refl (hits_in [])
  hits_in-perm (Permᴰ.cons {a = a} {l₁ = c} {l₂ = d} e p) =
      subst (λ z. Permᴰ (hits_in (a ∷ c)) (hits_in (z ∷ d))) e (hits_in-cons a c d (hits_in-perm p))
  hits_in-perm (Permᴰ.swap {a} {b} {a'} {b'} {l} e f) =
      subst (λ z. Permᴰ (hits_in (a ∷ b ∷ l)) (hits_in (z ∷ b' ∷ l))) f
        (subst (λ z. Permᴰ (hits_in (a ∷ b ∷ l)) (hits_in (b ∷ z ∷ l))) e (hits_in-swap a b l))
  hits_in-perm (Permᴰ.trans p q') = Permᴰ.trans (hits_in-perm p) (hits_in-perm q')

  abbrev pub ids : Vectors → List String
  ids m = map (λ e. e.1.id) m

  -- No vector of a map scores a NaN.
  abbrev pub IsScoredIn : Vectors → Type 0
  IsScoredIn m = All (λ e. is_nan (score_of machine q e.1) ≡ false) m

  pub hits_in-IsScored : (m : Vectors) → IsScoredIn m → All IsScored (hits_in m)
  unfolding hits_in
  hits_in-IsScored [] s = tt
  hits_in-IsScored (e ∷ m) s = ground (arith, hits_in-IsScored m s.1)

  hits_in-Apart :
      (h : Hit) (m : Vectors)
      → IsScored h
      → IsScoredIn m
      → All (Apart less_text h.id) (ids m)
      → All (Apart before h) (hits_in m)
  unfolding hits_in
  hits_in-Apart h [] p s a = tt
  hits_in-Apart h (e ∷ m) p s a =
      let later = hits_in-Apart h m p s.1 a.1 in
      elim (Bool-cases (answers machine q e.1)) [
        | inl k ↦ rw k (before-Apart h (hit_of machine q e.1) p s.0 a.0, later)
        | inr k ↦ rw k later
      ]

  pub hits_in-AllApart :
      (m : Vectors) → IsScoredIn m → AllApart less_text (ids m) → AllApart before (hits_in m)
  unfolding hits_in
  hits_in-AllApart [] s a = tt
  hits_in-AllApart (e ∷ m) s a =
      let later = hits_in-AllApart m s.1 a.1 in
      elim (Bool-cases (answers machine q e.1)) [
        | inl k ↦ rw k (hits_in-Apart (hit_of machine q e.1) m s.0 s.1 a.0, later)
        | inr k ↦ rw k later
      ]

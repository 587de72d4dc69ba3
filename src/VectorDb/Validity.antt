-- ===== src/VectorDb/Validity.antt =====
-- Which vectors Upsert takes.
use Prim.Native.Nat.{◌%◌, ◌^◌}
use ash_jazz_ai_agent.Prelude.{
  ℕ, suc, Bool, true, false, not, ◌&&◌, ◌||◌, List, [], ◌∷◌, Option, none, some, ◌≡◌, ◌==◌, refl,
  arith, length, ltb, Option-cases, Bool-cases, inl, inr,
}
use ash_jazz_ai_agent.Prelude.Float.{Float32}
use ash_jazz_ai_agent.Prelude.Int.{ℤ, pos, negsuc, pos_part, not_positive}
use ash_jazz_ai_agent.Prelude.Text.{is_blank}
use ash_jazz_ai_agent.Errors.{Result-cases, Error, Result, ok, err}
use ash_jazz_ai_agent.VectorDb.{
  Vector, Vectors, MemoryStore, has_dimension, zero_norm, validate_vector, clone_valid, upsert,
}

-- What a store of this dimension takes: an identifier that is not blank, and an embedding of the dimension
-- with some entry that is not zero.
abbrev pub has_norm : List Float32 → Bool
has_norm [] = false
has_norm (x ∷ xs) = not (x.bits % 2 ^ 31 == 0) || has_norm xs

abbrev pub is_fit : ℕ → Vector → Bool
is_fit dimension v =
    not (is_blank v.id) && (length v.embedding == dimension && has_norm v.embedding)

abbrev pub are_fit : ℕ → List Vector → Bool
are_fit dimension [] = true
are_fit dimension (v ∷ vs) = is_fit dimension v && are_fit dimension vs

abbrev holds_map : Option Vectors → Bool
holds_map none = false
holds_map (some m) = true

-- A store that can take vectors: not nil, with a positive dimension and a map.
abbrev pub takes_all : Option MemoryStore → List Vector → Bool
takes_all none vs = false
takes_all (some s) vs =
    ltb 0 (pos_part s.dimension) && (holds_map s.vectors && are_fit (pos_part s.dimension) vs)

abbrev pub is_none {ℓ} : {A : Type ℓ} → Option A → Bool
is_none none = true
is_none (some a) = false

has_norm-eq : (xs : List Float32) → zero_norm xs ≡ not (has_norm xs)
unfolding zero_norm
has_norm-eq [] = refl
has_norm-eq (x ∷ xs) = ground (arith, has_norm-eq xs)

has_dimension-eq :
    (xs : List Float32) (d : ℤ)
    → ltb 0 (pos_part d) ≡ true
    → has_dimension xs d ≡ (length xs == pos_part d)
has_dimension-eq xs (pos n) h = ground (arith, h)
has_dimension-eq xs (negsuc n) h = ground (arith, h)

validate_vector-eq :
    (v : Vector) (d : ℤ)
    → ltb 0 (pos_part d) ≡ true
    → is_none (validate_vector v d) ≡ is_fit (pos_part d) v
unfolding validate_vector
validate_vector-eq v d h = ground (arith, has_dimension-eq v.embedding d h, has_norm-eq v.embedding)

abbrev is_ok {ℓ} : {A : Type ℓ} → Result A → Bool
is_ok (err e) = false
is_ok (ok a) = true

clone_valid-are_fit :
    (d : ℤ) (i : ℕ) (vs : List Vector)
    → ltb 0 (pos_part d) ≡ true
    → is_ok (clone_valid d i vs) ≡ are_fit (pos_part d) vs
unfolding clone_valid
clone_valid-are_fit d i [] h = refl
clone_valid-are_fit d i (v ∷ vs) h = elim (Option-cases (validate_vector v d)) [
  | inl e ↦ ground (arith, e, validate_vector-eq v d h, clone_valid-are_fit d (suc i) vs h)
  | inr (x, e) ↦ ground (arith, e, validate_vector-eq v d h)
]

not_positive-eq : (d : ℤ) → not_positive d ≡ not (ltb 0 (pos_part d))
not_positive-eq (pos n) = ground arith
not_positive-eq (negsuc n) = ground arith

-- Upsert takes vectors exactly under a live context, in a store that can take them.
pub upsert-takes_all :
    (cancelled : Option Error) (s : Option MemoryStore) (vs : List Vector)
    → is_none (upsert cancelled s vs).1 ≡ (is_none cancelled && takes_all s vs)
unfolding upsert
upsert-takes_all (some e) s vs = refl
upsert-takes_all none none vs = refl
upsert-takes_all none (some s) vs = elim (Bool-cases (ltb 0 (pos_part s.dimension))) [
  | inr p ↦ ground (arith, p, not_positive-eq s.dimension)
  | inl p ↦ elim (Option-cases s.vectors) [
    | inl v ↦ ground (arith, p, v, not_positive-eq s.dimension)
    | inr (m, v) ↦ elim (Result-cases (clone_valid s.dimension 0 vs)) [
      | inl (e, h) ↦
          ground
            (arith, p, v, h, not_positive-eq s.dimension, clone_valid-are_fit s.dimension 0 vs p)
      | inr (c, h) ↦
          ground
            (arith, p, v, h, not_positive-eq s.dimension, clone_valid-are_fit s.dimension 0 vs p)
    ]
  ]
]

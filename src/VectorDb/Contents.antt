-- ===== src/VectorDb/Contents.antt =====
-- What a store holds after Upsert and Delete: all of the call's effect, or none of it.
use mathlib.Core.Option
use ash_jazz_ai_agent.Prelude.{
  ℕ, suc, String, Bool, false, ◌&&◌, ◌||◌, List, [], ◌∷◌, Option, none, some, ◌≡◌, refl, arith,
  if◌then◌else◌, Option-cases, inl, inr,
}
use ash_jazz_ai_agent.Prelude.Dict.{
  lookup, insert, erase, text_key, lookup-insert, lookup-erase, ◌≟◌,
}
use ash_jazz_ai_agent.Prelude.Int.{ℤ}
use ash_jazz_ai_agent.VectorDb.Validity.{is_none, takes_all, upsert-takes_all}
use ash_jazz_ai_agent.Errors.{Result-cases, Error, Result, ok, err}
use ash_jazz_ai_agent.VectorDb.{
  Vector, Vectors, MemoryStore, clone_vector, clone_valid, store_all, delete_all, upsert, delete,
}

-- The last of the vectors with an identifier, which is the one that a store keeps.
unfoldable pub latest : String → List Vector → Option Vector
latest id [] = none
latest id (v ∷ vs) = elim (latest id vs) [
  | some u ↦ some u
  | none ↦ if v.id ≟ id then some v else none
]

abbrev pub or_else {ℓ} : {A : Type ℓ} → Option A → Option A → Option A
or_else (some a) b = some a
or_else none b = b

abbrev held_in : String → Option Vectors → Option Vector
held_in id none = none
held_in id (some m) = lookup id m

-- What a store holds under an identifier; a nil store or map holds nothing.
abbrev pub held : String → Option MemoryStore → Option Vector
held id none = none
held id (some s) = held_in id s.vectors

unfoldable pub is_listed : String → List String → Bool
is_listed id [] = false
is_listed id (i ∷ is) = let later = is_listed id is in (i ≟ id) || later

-- With an error the store is as it was; without one, an identifier finds the copy of the last vector
-- that carries it, or else what it found before.
abbrev pub IsUpserted :
    String → Option MemoryStore → List Vector → Option MemoryStore × Option Error → Type 0
IsUpserted id s vs (s', some e) = s' ≡ s
IsUpserted id s vs (s', none) =
    held id s' ≡ or_else (Option.map clone_vector (latest id vs)) (held id s)

abbrev pub IsDeleted :
    String → Option MemoryStore → List String → Option MemoryStore × Option Error → Type 0
IsDeleted id s ids (s', some e) = s' ≡ s
IsDeleted id s ids (s', none) = held id s' ≡ (if is_listed id ids then none else held id s)

lookup-store_all :
    (id : String) (vs : List Vector) (m : Vectors)
    → lookup id (store_all vs m) ≡ or_else (latest id vs) (lookup id m)
unfolding store_all latest
lookup-store_all id [] m = refl
lookup-store_all id (v ∷ vs) m =
    ground (arith, lookup-store_all id vs (insert v.id v m), lookup-insert v.id id v m)

lookup-delete_all :
    (id : String) (ids : List String) (m : Vectors)
    → lookup id (delete_all ids m) ≡ (if is_listed id ids then none else lookup id m)
unfolding delete_all is_listed
lookup-delete_all id [] m = refl
lookup-delete_all id (i ∷ ids) m =
    ground (arith, lookup-delete_all id ids (erase i m), lookup-erase i id m)

abbrev IsCloned : String → List Vector → Result (List Vector) → Type 0
IsCloned id vs (err e) = Unit {0}
IsCloned id vs (ok cloned) = latest id cloned ≡ Option.map clone_vector (latest id vs)

clone_valid-IsCloned :
    (id : String) (dimension : ℤ) (i : ℕ) (vs : List Vector)
    → IsCloned id vs (clone_valid dimension i vs)
unfolding clone_valid latest
clone_valid-IsCloned id dimension i [] = refl
clone_valid-IsCloned id dimension i (v ∷ vs) =
    ground (arith, clone_valid-IsCloned id dimension (suc i) vs)

upsert-kept :
    (id : String) (cancelled : Option Error) (s : Option MemoryStore) (vs : List Vector)
    → IsUpserted id s vs (upsert cancelled s vs)
unfolding upsert
upsert-kept id (some e) s vs = refl
upsert-kept id none none vs = refl
upsert-kept id none (some s) vs = elim (Option-cases s.vectors) [
  | inl v ↦ ground (arith, v)
  | inr (m, v) ↦ elim (Result-cases (clone_valid s.dimension 0 vs)) [
    | inl (e, h) ↦ ground (arith, v, h)
    | inr (cloned, h) ↦
        ground (arith, v, h, clone_valid-IsCloned id s.dimension 0 vs, lookup-store_all id cloned m)
  ]
]

-- Upsert is atomic: it takes its vectors exactly under a live context, in a store with a positive dimension
-- and a map, when each vector has an identifier, the dimension and an entry that is not zero. Otherwise the
-- store is as it was; and else each identifier finds the copy of the last vector that carries it, or what
-- it found before.
pub upsert-IsUpserted :
    (id : String) (cancelled : Option Error) (s : Option MemoryStore) (vs : List Vector)
    → (is_none (upsert cancelled s vs).1 ≡ (is_none cancelled && takes_all s vs))
      × IsUpserted id s vs (upsert cancelled s vs)
upsert-IsUpserted id cancelled s vs =
    (upsert-takes_all cancelled s vs, upsert-kept id cancelled s vs)

-- Delete leaves the store as it was when it fails; else no listed identifier finds a vector, whether it
-- found one before or not, and every other one finds what it found before.
pub delete-IsDeleted :
    (id : String) (cancelled : Option Error) (s : Option MemoryStore) (ids : List String)
    → IsDeleted id s ids (delete cancelled s ids)
unfolding delete
delete-IsDeleted id (some e) s ids = refl
delete-IsDeleted id none none ids = refl
delete-IsDeleted id none (some s) ids = elim (Option-cases s.vectors) [
  | inl v ↦ ground (arith, v)
  | inr (m, v) ↦ ground (arith, v, lookup-delete_all id ids m)
]

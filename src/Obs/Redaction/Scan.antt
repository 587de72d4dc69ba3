-- ===== src/Obs/Redaction/Scan.antt =====
-- What ScanForbiddenPayloadFields returns: nothing exactly for clean fields, and the same findings in
-- whatever order the map gives its entries.
use mathlib.Core.List.{Permᴰ}
use mathlib.Core.List.Permᴰ
use Prim.Native.Char.{Char}
use ash_jazz_ai_agent.Prelude.{
  String, Bool, true, false, not, ◌&&◌, List, [], ◌∷◌, map, some, ◌≡◌, refl, sym, subst, ◌∙◌, arith,
  All, Option-cases, inl, inr,
}
use ash_jazz_ai_agent.Prelude.Sort.{
  IsWeakOrder, Apart, AllApart, IsSorted, place, sort, sort-IsSorted, sort-invariant,
}
use ash_jazz_ai_agent.Prelude.TextOrder.{less_text, less_text-IsWeakOrder}
use ash_jazz_ai_agent.Obs.Redaction.{
  Finding, is_forbidden_payload_key, contains_sensitive_payload_value, finding_of, cons_found,
  collect_findings, by_key, scan_forbidden_payload_fields,
}

module _ (table : Char → Char) where
  -- Every finding can be ordered.
  abbrev IsAny : Finding → Type 0
  IsAny f = Unit {0}

  All-IsAny : (fs : List Finding) → All IsAny fs
  All-IsAny [] = tt
  All-IsAny (f ∷ fs) = (tt, All-IsAny fs)

  by_key-IsWeakOrder : IsWeakOrder IsAny (by_key table)
  by_key-IsWeakOrder = record {
    asym = λ a b _ _. less_text-IsWeakOrder.asym a.key b.key tt tt;
    cotrans = λ a b c _ _ _. less_text-IsWeakOrder.cotrans a.key b.key c.key tt tt tt;
  }

  collect-cons :
      (entry : String × String) (c d : List (String × String))
      → Permᴰ (collect_findings table c) (collect_findings table d)
      → Permᴰ (collect_findings table (entry ∷ c)) (collect_findings table (entry ∷ d))
  unfolding collect_findings
  collect-cons (key, value) c d p = elim (Option-cases (finding_of table key value)) [
    | inl e ↦ rw e p
    | inr (f, e) ↦ rw e (Permᴰ.cons refl p)
  ]

  collect-swap :
      (x y : String × String) (m : List (String × String))
      → Permᴰ (collect_findings table (x ∷ y ∷ m)) (collect_findings table (y ∷ x ∷ m))
  unfolding collect_findings
  collect-swap (j, v) (k, w) m = elim (Option-cases (finding_of table j v)) [
    | inl e ↦ rw e (Permᴰ.refl (cons_found table (finding_of table k w) (collect_findings table m)))
    | inr (f, e) ↦ elim (Option-cases (finding_of table k w)) [
      | inl d ↦ rw e (rw d (Permᴰ.refl (f ∷ collect_findings table m)))
      | inr (g, d) ↦ rw e (rw d (Permᴰ.swap refl refl))
    ]
  ]

  collect-perm :
      {c d : List (String × String)}
      → Permᴰ c d
      → Permᴰ (collect_findings table c) (collect_findings table d)
  collect-perm Permᴰ.nil = Permᴰ.refl (collect_findings table [])
  collect-perm (Permᴰ.cons {a = a} {l₁ = c} {l₂ = d} e p) =
      subst (λ z. Permᴰ (collect_findings table (a ∷ c)) (collect_findings table (z ∷ d))) e
        (collect-cons a c d (collect-perm p))
  collect-perm (Permᴰ.swap {a} {b} {a'} {b'} {l} e f) =
      let start = collect_findings table (a ∷ b ∷ l) in
      subst (λ z. Permᴰ start (collect_findings table (z ∷ b' ∷ l))) f
        (subst (λ z. Permᴰ start (collect_findings table (b ∷ z ∷ l))) e (collect-swap a b l))
  collect-perm (Permᴰ.trans p q) = Permᴰ.trans (collect-perm p) (collect-perm q)

  abbrev pub keys : List (String × String) → List String
  keys fields = map (λ entry. entry.0) fields

  -- A finding has the key of its field.
  finding_of-key :
      (key value : String) (f : Finding) → finding_of table key value ≡ some f → f.key ≡ key
  finding_of-key key value f e = ground (arith, e)

  collect-Apart :
      (f : Finding) (m : List (String × String))
      → All (Apart less_text f.key) (keys m)
      → All (Apart (by_key table) f) (collect_findings table m)
  unfolding collect_findings
  collect-Apart f [] a = tt
  collect-Apart f ((key, value) ∷ m) a =
      let later = collect-Apart f m a.1 in
      elim (Option-cases (finding_of table key value)) [
        | inl e ↦ rw e later
        | inr (g, e) ↦
            rw e (subst (Apart less_text f.key) (sym (finding_of-key key value g e)) a.0, later)
      ]

  collect-AllApart :
      (m : List (String × String))
      → AllApart less_text (keys m)
      → AllApart (by_key table) (collect_findings table m)
  unfolding collect_findings
  collect-AllApart [] a = tt
  collect-AllApart ((key, value) ∷ m) a =
      let later = collect-AllApart m a.1 in
      elim (Option-cases (finding_of table key value)) [
        | inl e ↦ rw e later
        | inr (g, e) ↦
            let apart =
              subst (λ k. All (Apart less_text k) (keys m)) (sym (finding_of-key key value g e))
                a.0 in
            rw e (collect-Apart g m apart, later)
      ]

  -- The findings are in the order of their keys, and do not depend on the order in which the map of
  -- fields gives its entries.
  pub scan-invariant :
      (fields fields' : List (String × String))
      → AllApart less_text (keys fields)
      → Permᴰ fields fields'
      → IsSorted (by_key table) (scan_forbidden_payload_fields table fields)
        × (scan_forbidden_payload_fields table fields ≡ scan_forbidden_payload_fields table fields')
  unfolding scan_forbidden_payload_fields
  scan-invariant fields fields' a p =
      let found = collect_findings table fields in
      (
        sort-IsSorted (by_key table) by_key-IsWeakOrder found (All-IsAny found),
        sort-invariant (by_key table) by_key-IsWeakOrder (collect-perm p) (All-IsAny found)
            (collect-AllApart fields a),
      )

  -- No key is forbidden and no value is sensitive.
  unfoldable pub is_clean : List (String × String) → Bool
  is_clean [] = true
  is_clean ((key, value) ∷ fields) =
      let later = is_clean fields in
      not (is_forbidden_payload_key table key)
      && (not (contains_sensitive_payload_value table value) && later)

  abbrev pub is_nil {ℓ} : {A : Type ℓ} → List A → Bool
  is_nil [] = true
  is_nil (a ∷ rest) = false

  place-some : (f : Finding) (fs : List Finding) → is_nil (place (by_key table) f fs) ≡ false
  unfolding place
  place-some f [] = refl
  place-some f (g ∷ gs) = ground arith

  sort-is_nil : (fs : List Finding) → is_nil (sort (by_key table) fs) ≡ is_nil fs
  unfolding sort
  sort-is_nil [] = refl
  sort-is_nil (f ∷ fs) = place-some f (sort (by_key table) fs)

  collect-is_nil :
      (fields : List (String × String)) → is_nil (collect_findings table fields) ≡ is_clean fields
  unfolding collect_findings is_clean
  collect-is_nil [] = refl
  collect-is_nil ((key, value) ∷ fields) = ground (arith, collect-is_nil fields)

  -- The scan returns nothing exactly when no field has a forbidden key or a sensitive value.
  pub scan-is_clean :
      (fields : List (String × String))
      → is_nil (scan_forbidden_payload_fields table fields) ≡ is_clean fields
  unfolding scan_forbidden_payload_fields
  scan-is_clean fields = sort-is_nil (collect_findings table fields) ∙ collect-is_nil fields

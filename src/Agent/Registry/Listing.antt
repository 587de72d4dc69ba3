-- ===== src/Agent/Registry/Listing.antt =====
-- The declarations that a registry sends to a model: those of its tools, by name, whatever the order
-- in which the map gives its keys.
use mathlib.Core.List.{Permᴰ}
use mathlib.Core.List.Permᴰ
use ash_jazz_ai_agent.Prelude.{
  String, List, [], ◌∷◌, map, none, some, ◌≡◌, ◌≢◌, refl, ap, sym, subst, ◌∙◌, arith, All,
  Option-cases, inl, inr,
}
use ash_jazz_ai_agent.Prelude.Dict.{Dict, lookup, text_key, ≟_refl}
use ash_jazz_ai_agent.Prelude.Sort.{
  IsSorted, Apart, AllApart, sort, sort-perm, sort-IsSorted, sort-invariant, All-perm,
  AllApart-perm,
}
use ash_jazz_ai_agent.Prelude.Text.{text_beq_iff}
use ash_jazz_ai_agent.Prelude.TextOrder.{less_text, less_text-IsWeakOrder, All-IsText}
use ash_jazz_ai_agent.Llm
use ash_jazz_ai_agent.Agent.Registry.{RegisteredTool, Registry, names, declare_all, llm_tools}
use ash_jazz_ai_agent.Agent.Registry.Soundness.{IsEntry, IsSound}

module _ {W : Type 0} where
  abbrev keys : Dict String (RegisteredTool W) → List String
  keys d = map (λ entry. entry.0) d

  lookup-IsEntry :
      (key : String) (d : Dict String (RegisteredTool W)) (t : RegisteredTool W)
      → All IsEntry d
      → lookup key d ≡ some t
      → t.name ≡ key
  unfolding lookup
  lookup-IsEntry key [] t h e = ground arith
  lookup-IsEntry key ((held, u) ∷ rest) t h e =
      ground (arith, text_beq_iff held key, lookup-IsEntry key rest t h.1)

  abbrev IsHeld : Dict String (RegisteredTool W) → String → Type 0
  IsHeld d key = lookup key d ≢ none

  -- The keys of a dictionary are found in it.
  IsHeld-cons :
      (entry : String × RegisteredTool W) (d : Dict String (RegisteredTool W)) (ks : List String)
      → All (IsHeld d) ks
      → All (IsHeld (entry ∷ d)) ks
  unfolding lookup
  IsHeld-cons entry d [] h = tt
  IsHeld-cons entry d (k ∷ ks) h = ground (arith, IsHeld-cons entry d ks h.1)

  keys-IsHeld : (d : Dict String (RegisteredTool W)) → All (IsHeld d) (keys d)
  unfolding lookup
  keys-IsHeld [] = tt
  keys-IsHeld (entry ∷ rest) =
      ground (arith, ≟_refl entry.0, IsHeld-cons entry rest (keys rest) (keys-IsHeld rest))

  declare_all-names :
      (w : W) (d : Dict String (RegisteredTool W)) (ks : List String)
      → All IsEntry d
      → All (IsHeld d) ks
      → map (λ (t : Llm.Tool). t.name) (declare_all w d ks) ≡ ks
  unfolding declare_all
  declare_all-names w d [] h held = refl
  declare_all-names w d (k ∷ ks) h held = elim (Option-cases (lookup k d)) [
    | inl e ↦ elim (held.0 e) [ ]
    | inr (t, e) ↦ ground (arith, e, lookup-IsEntry k d t h e, declare_all-names w d ks h held.1)
  ]

  declare_all-agree :
      (w : W) (c d : Dict String (RegisteredTool W)) (ks : List String)
      → ((k : String) → lookup k c ≡ lookup k d)
      → declare_all w c ks ≡ declare_all w d ks
  unfolding declare_all
  declare_all-agree w c d [] h = refl
  declare_all-agree w c d (k ∷ ks) h = ground (arith, h k, declare_all-agree w c d ks h)

  lookup-cons :
      (k : String) (entry : String × RegisteredTool W) (c d : Dict String (RegisteredTool W))
      → lookup k c ≡ lookup k d
      → lookup k (entry ∷ c) ≡ lookup k (entry ∷ d)
  unfolding lookup
  lookup-cons k entry c d h = ground arith

  lookup-swap :
      (k : String) (x y : String × RegisteredTool W) (d : Dict String (RegisteredTool W))
      → Apart less_text x.0 y.0
      → lookup k (x ∷ y ∷ d) ≡ lookup k (y ∷ x ∷ d)
  unfolding lookup
  lookup-swap k x y d h = ground (
    arith,
    text_beq_iff x.0 k,
    text_beq_iff y.0 k,
    less_text-IsWeakOrder.asym x.0 y.0 tt tt,
    less_text-IsWeakOrder.asym y.0 x.0 tt tt,
  )

  lookup-invariant :
      {c d : Dict String (RegisteredTool W)} (k : String)
      → Permᴰ c d
      → AllApart less_text (keys c)
      → lookup k c ≡ lookup k d
  lookup-invariant k Permᴰ.nil h = refl
  lookup-invariant k (Permᴰ.cons {b = b} {l₁ = l} {l₂ = m} e p) h =
      ap (λ z. lookup k (z ∷ l)) e ∙ lookup-cons k b l m (lookup-invariant k p h.1)
  lookup-invariant k (Permᴰ.swap {a} {b} {a'} {b'} {l} e f) h =
      lookup-swap k a b l h.0.0
      ∙ ap (λ z. lookup k (z ∷ a ∷ l)) f
      ∙ ap (λ z. lookup k (a' ∷ z ∷ l)) e
  lookup-invariant k (Permᴰ.trans p q) h =
      let h' = AllApart-perm less_text (Permᴰ.map (λ entry. entry.0) p) h in
      lookup-invariant k p h ∙ lookup-invariant k q h'

module _ {W : Type 0} (r : Registry W) (w : W) (sound : IsSound r) where
  -- The declarations of a sound registry are in the order of their names, and the names are those of
  -- its tools, each once.
  pub llm_tools-names :
      let sent = map (λ (t : Llm.Tool). t.name) (llm_tools r w) in
      (sent ≡ sort less_text (names r)) × IsSorted less_text sent × Permᴰ sent (names r)
  unfolding llm_tools
  llm_tools-names =
      let sorted = sort less_text (names r) in
      let held =
        All-perm (IsHeld r.tools) (Permᴰ.symm (sort-perm less_text (names r)))
          (keys-IsHeld r.tools) in
      let same = declare_all-names w r.tools sorted sound.0 held in
      (
        same,
        subst (IsSorted less_text) (sym same)
            (sort-IsSorted less_text less_text-IsWeakOrder (names r) (All-IsText (names r))),
        subst (λ ks. Permᴰ ks (names r)) (sym same) (sort-perm less_text (names r)),
      )

  -- The declarations do not depend on the order in which the map gives its entries.
  pub llm_tools-invariant :
      (r' : Registry W) → Permᴰ r.tools r'.tools → llm_tools r w ≡ llm_tools r' w
  unfolding llm_tools
  llm_tools-invariant r' p =
      declare_all-agree w r.tools r'.tools (sort less_text (names r))
        (λ k. lookup-invariant k p sound.1)
      ∙ ap (declare_all w r'.tools) (
          sort-invariant less_text less_text-IsWeakOrder (Permᴰ.map (λ entry. entry.0) p)
            (All-IsText (names r)) sound.1)

-- ===== src/Rag/Chunker/Coverage.antt =====
-- The chunks of a document cover it: they overlap as configured, and none is empty or too long.
use ash_jazz_ai_agent.Prelude.{
  ℕ, zero, suc, ◌+◌, ◌-◌, ◌≤◌, ◌<◌, false, List, [], ◌∷◌, ◌++◌, take, drop, length, Option, none,
  ◌≡◌, refl, sym, ap, ◌∙◌, subst, arith, All, take-append-drop, length-take, length-drop, ltb,
  tests, Bool-cases, inl, inr,
}
use Prim.Native.Char.{Char}
use ash_jazz_ai_agent.Prelude.Int.{pos_part}
use ash_jazz_ai_agent.Prelude.Text.{is_blank, runes, of_runes}
use ash_jazz_ai_agent.Errors.{Error, Result, ok, err}
use ash_jazz_ai_agent.Rag.Metadata.{Document, Chunk}
use ash_jazz_ai_agent.Rag.Chunker.{
  RecursiveChunkerConfig, validate_recursive_config, chunk_of, window, chunk_windows, chunk,
}

runes-of_runes : (cs : List Char) → runes (of_runes cs) ≡ cs
runes-of_runes [] = refl
runes-of_runes (c ∷ cs) = ap (◌∷◌ c) (runes-of_runes cs)

module _ {ℓ} {A : Type ℓ} where
  take_beyond : (n : ℕ) (xs : List A) → length xs ≤ n → take n xs ≡ xs
  take_beyond zero [] h = refl
  take_beyond zero (x ∷ xs) h = ground arith
  take_beyond (suc n) [] h = refl
  take_beyond (suc n) (x ∷ xs) h = ap (◌∷◌ x) (take_beyond n xs (omega (arith, h)))

  take-take : (m n : ℕ) (xs : List A) → m ≤ n → take m (take n xs) ≡ take m xs
  take-take zero n xs h = refl
  take-take (suc m) zero xs h = ground arith
  take-take (suc m) (suc n) [] h = refl
  take-take (suc m) (suc n) (x ∷ xs) h = ap (◌∷◌ x) (take-take m n xs (omega (arith, h)))

  drop_nil : (n : ℕ) → drop {A = A} n [] ≡ []
  drop_nil zero = refl
  drop_nil (suc n) = refl

  drop-drop : (m n : ℕ) (xs : List A) → drop n (drop m xs) ≡ drop (m + n) xs
  drop-drop zero n xs = let e : n ≡ 0 + n = omega arith in ap (λ k. drop k xs) e
  drop-drop (suc m) n [] = drop_nil n ∙ sym (drop_nil (suc m + n))
  drop-drop (suc m) n (x ∷ xs) =
      let e : suc (m + n) ≡ suc m + n = omega arith in
      drop-drop m n xs ∙ ap (λ k. drop k (x ∷ xs)) e

  drop_beyond : (n : ℕ) (xs : List A) → length xs ≤ n → drop n xs ≡ []
  drop_beyond zero [] h = refl
  drop_beyond zero (x ∷ xs) h = ground arith
  drop_beyond (suc n) [] h = refl
  drop_beyond (suc n) (x ∷ xs) h = drop_beyond n xs (omega (arith, h))

-- The window of the code is the next `size` runes, or those that are left.
window-take :
    (size start : ℕ) (content : List Char)
    → start ≤ length content
    → window size start content ≡ take size (drop start content)
window-take size start content h =
    let left : length (drop start content) ≡ length content - start = length-drop start content in
    elim (Bool-cases (ltb (length content) (start + size))) [
      | inl short ↦ rw short (
          take_beyond (length content - start) (drop start content) (omega (arith, left))
          ∙ sym (take_beyond size (drop start content) (omega (tests, left, short))))
      | inr long ↦
          let e : start + size - start ≡ size = omega arith in
          rw long (ap (λ k. take k (drop start content)) e)
    ]

module _ (doc : Document) (size step : ℕ) (content : List Char) where
  -- The chunks from a start on: each holds the runes of its window, and the last start is past the end.
  abbrev pub IsCut : ℕ → ℕ → List Chunk → Type 0
  IsCut start index [] = length content ≤ start
  IsCut start index (k ∷ ks) =
      (start < length content)
      × (k ≡ chunk_of doc index (take size (drop start content)))
      × IsCut (start + step) (suc index) ks

  abbrev IsCutResult : ℕ → ℕ → Result (List Chunk) → Type 0
  IsCutResult start index (err e) = Unit {0}
  IsCutResult start index (ok ks) = IsCut start index ks

  chunk_windows-IsCut :
      (cancelled : ℕ → Option Error) (fuel start index : ℕ)
      → 0 < step
      → length content ≤ fuel + start
      → IsCutResult start index (chunk_windows cancelled doc size step content fuel start index)
  unfolding chunk_windows
  chunk_windows-IsCut cancelled zero start index p h = omega (arith, h)
  chunk_windows-IsCut cancelled (suc fuel) start index p h = ground (
    arith,
    chunk_windows-IsCut cancelled fuel (start + step) (suc index) p (omega (arith, p, h)),
    window-take size start content,
  )

  -- What the chunks have of the document that the next chunk does not begin with.
  abbrev pub joined : List Chunk → List Char
  joined [] = []
  joined (k ∷ ks) = take step (runes k.content) ++ joined ks

  IsCut-joined :
      (start index : ℕ) (ks : List Chunk)
      → step ≤ size
      → IsCut start index ks
      → joined ks ≡ drop start content
  IsCut-joined start index [] h c = sym (drop_beyond start content c)
  IsCut-joined start index (k ∷ ks) h (_, e, rest) =
      let here : take step (runes k.content) ≡ take step (drop start content) =
        ap (λ z. take step (runes z.content)) e
        ∙ ap (take step) (runes-of_runes (take size (drop start content)))
        ∙ take-take step size (drop start content) h in
      let later : joined ks ≡ drop step (drop start content) =
        IsCut-joined (start + step) (suc index) ks h rest ∙ sym (drop-drop start step content) in
      ap (λ z. z ++ joined ks) here
      ∙ ap (λ z. take step (drop start content) ++ z) later
      ∙ take-append-drop step (drop start content)

  -- A chunk of the document with some runes, but not more than the chunk size.
  abbrev pub IsBounded : Chunk → Type 0
  IsBounded k =
      (k.parent_id ≡ doc.id) × (0 < length (runes k.content)) × (length (runes k.content) ≤ size)

  IsCut-IsBounded :
      (start index : ℕ) (ks : List Chunk) → 0 < size → IsCut start index ks → All IsBounded ks
  IsCut-IsBounded start index [] p c = tt
  IsCut-IsBounded start index (k ∷ ks) p (s, e, rest) =
      let window = take size (drop start content) in
      let shown : length (runes k.content) ≡ length window =
        ap (λ z. length (runes z.content)) e ∙ ap length (runes-of_runes window) in
      let sizes = length-take size (drop start content) in
      let left = length-drop start content in
      (
        (
          ap (λ z. z.parent_id) e,
          omega (arith, shown, sizes, left, s, p),
          omega (arith, shown, sizes, left),
        ),
        IsCut-IsBounded (start + step) (suc index) ks p rest,
      )

-- The sizes in force of a configuration that is valid.
abbrev pub size_of : RecursiveChunkerConfig → ℕ
size_of c = pos_part c.chunk_size

abbrev pub step_of : RecursiveChunkerConfig → ℕ
step_of c = size_of c - pos_part c.overlap

IsValid-step : (c : RecursiveChunkerConfig) → validate_recursive_config c ≡ none → 0 < step_of c
unfolding validate_recursive_config
IsValid-step c h = ground arith

module _ (cancelled : ℕ → Option Error) (c : RecursiveChunkerConfig) (doc : Document)
    (ks : List Chunk) (made : chunk cancelled c doc ≡ ok ks) where
  made_valid : validate_recursive_config c ≡ none
  unfolding chunk
  made_valid = ground (arith, made)

  made-IsCut :
      is_blank doc.content ≡ false → IsCut doc (size_of c) (step_of c) (runes doc.content) 0 0 ks
  unfolding chunk
  made-IsCut h =
      let content = runes doc.content in
      let fuel = length content in
      let windows : chunk_windows cancelled doc (size_of c) (step_of c) content fuel 0 0 ≡ ok ks =
        ground (arith, made) in
      subst (IsCutResult doc (size_of c) (step_of c) content 0 0) windows (
        chunk_windows-IsCut doc (size_of c) (step_of c) content cancelled fuel 0 0
          (IsValid-step c made_valid) (omega arith))

  -- The chunks of a document that is not blank cover it: put together, what each holds in front of the
  -- start of the next (chunk size less overlap runes, or what is left) is the document's content.
  pub chunk-joined :
      is_blank doc.content ≡ false
      → joined doc (size_of c) (step_of c) (runes doc.content) ks ≡ runes doc.content
  chunk-joined h =
      IsCut-joined doc (size_of c) (step_of c) (runes doc.content) 0 0 ks (omega arith)
        (made-IsCut h)

  -- Each chunk of a document that is not blank names it as its parent, and has at least one rune and at
  -- most as many as the chunk size.
  pub chunk-IsBounded :
      is_blank doc.content ≡ false
      → All (IsBounded doc (size_of c) (step_of c) (runes doc.content)) ks
  chunk-IsBounded h =
      let positive = IsValid-step c made_valid in
      IsCut-IsBounded doc (size_of c) (step_of c) (runes doc.content) 0 0 ks
        (omega (arith, positive)) (made-IsCut h)

-- ===== src/Surprise/EmitIdeas/Layers.antt =====
-- The values that decode, described by their layers.
use Prim.Native.Char.{Char, code}
use perfect_gift.Prelude.{
  trim_space, sym, ◌∙◌, ◌≢◌, refl, eq_iff, subst, eq_refl, ◌⊎◌, ℕ, zero, suc, String, true, false,
  none, some, List, [], ◌∷◌, ◌≡◌, ◌↔◌, arith, ok, err, ◌==◌, Bool-cases, Option-cases, Result-cases,
  inl, inr,
}
use perfect_gift.Surprise.Types.{GoError}
use perfect_gift.Surprise.Llm.{LlmIdea}
use perfect_gift.Surprise.EmitIdeas.{
  first_is, Decoders, is_absent, is_json_object, is_zero, lone, unwrap, peel, or_peel,
  decode_ideas_field_depth, decode_ideas_field,
}

-- A value that is missing or null.
abbrev pub IsMissing : String → Type 0
IsMissing raw = (raw ≡ "") ⊎ (raw ≡ "null")

-- A text whose first character, after the blanks, is a brace.
abbrev pub IsObject : String → Type 0
IsObject raw = (d : Char) × (rest : String) × (trim_space raw ≡ String.◌∷◌ d rest) × (code d ≡ b'{')

-- An idea that says anything.
abbrev pub Says : LlmIdea → Type 0
Says i = (i.title ≢ "") ⊎ (i.why_it_fits ≢ "") ⊎ (i.rough_cost ≢ "") ⊎ (i.how_to ≢ "")

-- One layer: a text whose content is the inner value, or an object with it under "ideas".
abbrev pub IsLayer : Decoders → String → String → Type 0
IsLayer json raw inner =
    (json.text raw ≡ some inner)
    ⊎ ((json.text raw ≡ none) × IsObject raw × (json.wrapper raw ≡ some inner) × (inner ≢ ""))

-- An object with nothing under "ideas" that is itself one idea.
abbrev pub IsLone : Decoders → String → LlmIdea → Type 0
IsLone json raw idea =
    (json.text raw ≡ none)
    × IsObject raw
    × ((json.wrapper raw ≡ none) ⊎ (json.wrapper raw ≡ some ""))
    × (json.single raw ≡ some idea)
    × Says idea

-- A value that is there and is no list of ideas.
abbrev pub IsNoList : Decoders → String → Type 0
IsNoList json raw = (¬ IsMissing raw) × (e : GoError) × (json.ideas raw ≡ err e)

-- `Carries json n raw ideas`: the ideas stand in raw under at most n layers; one idea that stands
-- where a list is expected counts as a layer.
pub data Carries (json : Decoders) : ℕ → String → List LlmIdea → Type 0 where
  absent : {n : ℕ} (raw : String) → IsMissing raw → Carries json n raw []
  array :
      {n : ℕ} (raw : String) (ideas : List LlmIdea)
      → ¬ IsMissing raw
      → json.ideas raw ≡ ok ideas
      → Carries json n raw ideas
  layer :
      {n : ℕ} (raw inner : String) (ideas : List LlmIdea)
      → IsNoList json raw
      → IsLayer json raw inner
      → Carries json n inner ideas
      → Carries json (suc n) raw ideas
  one_idea :
      {n : ℕ} (raw : String) (idea : LlmIdea)
      → IsNoList json raw
      → IsLone json raw idea
      → Carries json (suc n) raw (idea ∷ [])

IsMissing-is_absent : (raw : String) → IsMissing raw → is_absent raw ≡ true
unfolding is_absent
IsMissing-is_absent raw (inl e) = ground (arith, eq_iff raw "")
IsMissing-is_absent raw (inr e) = ground (arith, eq_iff raw "null")

is_absent-IsMissing : (raw : String) → is_absent raw ≡ true → IsMissing raw
unfolding is_absent
is_absent-IsMissing raw h = elim (Bool-cases (raw == "")) [
  | inl e ↦ inl ((eq_iff raw "").0 e)
  | inr e ↦ inr ((eq_iff raw "null").0 (ground arith))
]

is_absent_if_there : (raw : String) → ¬ IsMissing raw → is_absent raw ≡ false
is_absent_if_there raw h = elim (Bool-cases (is_absent raw)) [
  | inl e ↦ absurd (h (is_absent-IsMissing raw e))
  | inr e ↦ e
]

not-IsMissing : (raw : String) → is_absent raw ≡ false → ¬ IsMissing raw
not-IsMissing raw h = λ m. absurd (true-false (sym (IsMissing-is_absent raw m) ∙ h))
  where
    true-false : ¬ (true ≡ false)
    true-false e = absurd (cc)

first_is-shape :
    (s : String) (c : ℕ)
    → first_is c s ≡ true
    → (d : Char) × (rest : String) × (s ≡ String.◌∷◌ d rest) × (code d ≡ c)
unfolding first_is
first_is-shape String.[] c h = absurd (cc)
first_is-shape (String.◌∷◌ d rest) c h = (d, rest, refl, ground arith)

is_json_object-IsObject : (raw : String) → is_json_object raw ≡ true → IsObject raw
unfolding is_json_object
is_json_object-IsObject raw h = first_is-shape (trim_space raw) b'{' h

IsObject-is_json_object : (raw : String) → IsObject raw → is_json_object raw ≡ true
unfolding is_json_object first_is
IsObject-is_json_object raw (d, rest, shape, brace) =
    subst (λ s. first_is b'{' s ≡ true) (sym shape) (ground arith)

is_zero-Says : (i : LlmIdea) → is_zero i ≡ false → Says i
unfolding is_zero
is_zero-Says i h = elim (Bool-cases (i.title == "")) [
  | inr e ↦ inl (λ same. different i.title e same)
  | inl e ↦ elim (Bool-cases (i.why_it_fits == "")) [
    | inr f ↦ inr (inl (λ same. different i.why_it_fits f same))
    | inl f ↦ elim (Bool-cases (i.rough_cost == "")) [
      | inr g ↦ inr (inr (inl (λ same. different i.rough_cost g same)))
      | inl g ↦ inr (inr (inr (λ same. different i.how_to (ground arith) same)))
    ]
  ]
]
  where
    different : (s : String) → (s == "") ≡ false → ¬ (s ≡ "")
    different s e same = absurd (ground (arith, eq_iff s ""))

Says-is_zero : (i : LlmIdea) → Says i → is_zero i ≡ false
unfolding is_zero
Says-is_zero i (inl h) = ground (arith, eq_iff i.title "")
Says-is_zero i (inr (inl h)) = ground (arith, eq_iff i.why_it_fits "")
Says-is_zero i (inr (inr (inl h))) = ground (arith, eq_iff i.rough_cost "")
Says-is_zero i (inr (inr (inr h))) = ground (arith, eq_iff i.how_to "")

module _ (json : Decoders) where
  decode-layer :
      (n : ℕ) (raw inner : String) (ideas : List LlmIdea)
      → IsNoList json raw
      → IsLayer json raw inner
      → decode_ideas_field_depth json n inner ≡ ok ideas
      → decode_ideas_field_depth json (suc n) raw ≡ ok ideas
  unfolding decode_ideas_field_depth or_peel peel unwrap
  decode-layer n raw inner ideas (a, e, i) (inl t) h = ground (arith, is_absent_if_there raw a)
  decode-layer n raw inner ideas (a, e, i) (inr (t, o, w, f)) h =
      ground (arith, is_absent_if_there raw a, IsObject-is_json_object raw o, eq_iff inner "")

  decode-lone :
      (n : ℕ) (raw : String) (idea : LlmIdea)
      → IsNoList json raw
      → IsLone json raw idea
      → decode_ideas_field_depth json (suc n) raw ≡ ok (idea ∷ [])
  unfolding decode_ideas_field_depth or_peel peel unwrap lone
  decode-lone n raw idea (a, e, i) (t, o, inl w, s, says) =
      ground
        (arith, is_absent_if_there raw a, IsObject-is_json_object raw o, Says-is_zero idea says)
  decode-lone n raw idea (a, e, i) (t, o, inr w, s, says) = ground (
    arith,
    is_absent_if_there raw a,
    IsObject-is_json_object raw o,
    Says-is_zero idea says,
    eq_refl "",
  )

  decode-Carries :
      (n : ℕ) (raw : String) (ideas : List LlmIdea)
      → Carries json n raw ideas
      → decode_ideas_field_depth json n raw ≡ ok ideas
  unfolding decode_ideas_field_depth or_peel
  decode-Carries zero raw ideas (absent _ a) = ground (arith, IsMissing-is_absent raw a)
  decode-Carries (suc n) raw ideas (absent _ a) = ground (arith, IsMissing-is_absent raw a)
  decode-Carries zero raw ideas (array _ _ a i) = ground (arith, is_absent_if_there raw a)
  decode-Carries (suc n) raw ideas (array _ _ a i) = ground (arith, is_absent_if_there raw a)
  decode-Carries (suc n) raw ideas (layer _ inner _ l i c) =
      decode-layer n raw inner ideas l i (decode-Carries n inner ideas c)
  decode-Carries (suc n) raw ideas (one_idea _ idea l i) = decode-lone n raw idea l i

  lone-Carries :
      (n : ℕ) (raw : String) (ideas : List LlmIdea) (e : GoError)
      → IsNoList json raw
      → json.text raw ≡ none
      → IsObject raw
      → (json.wrapper raw ≡ none) ⊎ (json.wrapper raw ≡ some "")
      → lone e (json.single raw) ≡ ok ideas
      → Carries json (suc n) raw ideas
  unfolding lone
  lone-Carries n raw ideas e l t o w h = elim (Option-cases (json.single raw)) [
    | inl s ↦ absurd (ground arith)
    | inr (idea, s) ↦ elim (Bool-cases (is_zero idea)) [
      | inl z ↦ absurd (ground arith)
      | inr z ↦
          let same : idea ∷ [] ≡ ideas = ground arith in
          subst (Carries json (suc n) raw) same
            (one_idea raw idea l (t, o, w, s, is_zero-Says idea z))
    ]
  ]

  Carries-decode :
      (n : ℕ) (raw : String) (ideas : List LlmIdea)
      → decode_ideas_field_depth json n raw ≡ ok ideas
      → Carries json n raw ideas
  unfolding decode_ideas_field_depth or_peel peel unwrap
  Carries-decode zero raw ideas h = elim (Bool-cases (is_absent raw)) [
    | inl a ↦ subst (Carries json zero raw) (ground arith) (absent raw (is_absent-IsMissing raw a))
    | inr a ↦ array raw ideas (not-IsMissing raw a) (ground arith)
  ]
  Carries-decode (suc n) raw ideas h = elim (Bool-cases (is_absent raw)) [
    | inl a ↦
        subst (Carries json (suc n) raw) (ground arith) (absent raw (is_absent-IsMissing raw a))
    | inr a ↦ elim (Result-cases (json.ideas raw)) [
      | inl (found, i) ↦ array raw ideas (not-IsMissing raw a) (ground arith)
      | inr (e, i) ↦
          let l : IsNoList json raw = (not-IsMissing raw a, e, i) in
          elim (Option-cases (json.text raw)) [
            | inr (s, t) ↦ layer raw s ideas l (inl t) (Carries-decode n s ideas (ground arith))
            | inl t ↦ elim (Bool-cases (is_json_object raw)) [
              | inr o ↦ absurd (ground arith)
              | inl o ↦ elim (Option-cases (json.wrapper raw)) [
                | inl w ↦
                    lone-Carries n raw ideas e l t (is_json_object-IsObject raw o) (inl w)
                      (ground arith)
                | inr (inner, w) ↦ elim (Bool-cases (inner == "")) [
                  | inl f ↦
                      lone-Carries n raw ideas e l t (is_json_object-IsObject raw o)
                        (inr (ground (arith, eq_iff inner ""))) (ground arith)
                  | inr f ↦
                      layer raw inner ideas l
                        (inr (t, is_json_object-IsObject raw o, w, non_empty inner f))
                        (Carries-decode n inner ideas (ground arith))
                ]
              ]
            ]
          ]
    ]
  ]
    where
      non_empty : (s : String) → (s == "") ≡ false → ¬ (s ≡ "")
      non_empty s e same = absurd (ground (arith, eq_iff s ""))

  -- The decoder answers ideas exactly where they stand in the value under at most three layers. A
  -- layer is a text around a value or an object with it under "ideas"; a single idea that says
  -- anything stands for a list of one, and takes a layer too. A value that is missing or null
  -- carries none.
  pub decode_ideas_field_iff :
      (raw : String) (ideas : List LlmIdea)
      → (decode_ideas_field json raw ≡ ok ideas) ↔ Carries json 3 raw ideas
  unfolding decode_ideas_field
  decode_ideas_field_iff raw ideas = (Carries-decode 3 raw ideas, decode-Carries 3 raw ideas)

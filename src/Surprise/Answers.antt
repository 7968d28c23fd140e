-- ===== src/Surprise/Answers.antt =====
-- What an answer of the Anthropic client rests on.
use Prim.Native.String.{◌++◌ as ◌<>◌}
use perfect_gift.Prelude.{
  ℕ, ◌/◌, String, Bool, true, false, List, [], ◌∷◌, ◌≡◌, refl, arith, Result, ok, err, Result-cases,
  Bool-cases, inl, inr, ◌==◌, ◌&&◌, not, eqb,
}
use perfect_gift.Surprise.Types.{GoError}
use perfect_gift.Surprise.Llm.{LlmIdea, GenerateParams, moderation_tier}
use perfect_gift.Surprise.EmitIdeas.{max_layers}
use perfect_gift.Surprise.EmitIdeas.Layers.{Carries, decode_ideas_field_iff}
use perfect_gift.Surprise.Anthropic.{
  Network, AnthropicConfig, MessagesRequest, ContentBlock, model_of, prompt_of, generator_prompt,
  classifier_prompt, do_messages, send_body, response_of, decoded_body, emitted, decode_field,
  tool_input, verdict, after, generate_ideas, moderate,
}

-- The first block that passes a test.
pub data IsFirst (test : ContentBlock → Bool) (b : ContentBlock) : List ContentBlock → Type 0 where
  here : {bs : List ContentBlock} → test b ≡ true → IsFirst test b (b ∷ bs)
  there :
      {c : ContentBlock} {bs : List ContentBlock}
      → test c ≡ false
      → IsFirst test b bs
      → IsFirst test b (c ∷ bs)

abbrev pub calls_emit_ideas : ContentBlock → Bool
calls_emit_ideas b = b.type_of == "tool_use" && b.name == "emit_ideas"

abbrev pub is_text : ContentBlock → Bool
is_text b = b.type_of == "text"

module _ {M : Type 0} (net : Network M) (cfg : AnthropicConfig) where
  -- The request was posted and answered 2xx with these blocks.
  pub record IsAnswered (req : MessagesRequest) (m : M) (blocks : List ContentBlock) : Type 0 where
    pub body : String
    pub status : ℕ
    pub raw : String
    pub marshalled : net.marshal req ≡ ok body
    pub posted : (net.post (cfg.base_url <> "/v1/messages") body m).0 ≡ ok (status, raw)
    pub success : status / 100 ≡ 2
    pub decoded : net.unmarshal raw ≡ ok blocks

  do_messages-IsAnswered :
      (req : MessagesRequest) (m : M) (blocks : List ContentBlock)
      → (do_messages net cfg req m).0 ≡ ok blocks
      → IsAnswered req m blocks
  unfolding do_messages send_body response_of decoded_body
  do_messages-IsAnswered req m blocks h = elim (Result-cases (net.marshal req)) [
    | inr (e, a) ↦ absurd (ground arith)
    | inl (body, a) ↦ elim (Result-cases (net.post (cfg.base_url <> "/v1/messages") body m).0) [
      | inr (e, b) ↦ absurd (ground arith)
      | inl ((status, raw), b) ↦ elim (Bool-cases (eqb (status / 100) 2)) [
        | inr c ↦ absurd (ground arith)
        | inl c ↦ elim (Result-cases (net.unmarshal raw)) [
          | inr (e, d) ↦ absurd (ground arith)
          | inl (found, d) ↦ record {
            body = body;
            status = status;
            raw = raw;
            marshalled = a;
            posted = b;
            success = ground arith;
            decoded = ground arith;
          }
        ]
      ]
    ]
  ]

  verdict-IsFirst :
      (blocks : List ContentBlock) (answer : Bool)
      → verdict net cfg blocks ≡ ok answer
      → (b : ContentBlock) × (IsFirst is_text b blocks)
        × (answer ≡ not (net.contains (net.to_upper b.text) "UNSAFE"))
  unfolding verdict
  verdict-IsFirst [] answer h = absurd (cc)
  verdict-IsFirst (b ∷ bs) answer h = elim (Bool-cases (is_text b)) [
    | inl t ↦ (b, here t, ground arith)
    | inr t ↦
        let (c, first, same) = verdict-IsFirst bs answer (ground arith) in (c, there t first, same)
  ]

  decode_field-Carries :
      (r : Result GoError String) (ideas : List LlmIdea)
      → tool_input net cfg (decode_field net cfg r) ≡ ok ideas
      → (raw : String) × (r ≡ ok raw) × (Carries net.decoders max_layers raw ideas)
  unfolding tool_input decode_field
  decode_field-Carries (err e) ideas h = absurd (cc)
  decode_field-Carries (ok raw) ideas h =
      (raw, refl, (decode_ideas_field_iff net.decoders raw ideas).0 (ground arith))

  emitted-IsFirst :
      (blocks : List ContentBlock) (ideas : List LlmIdea)
      → emitted net cfg blocks ≡ ok ideas
      → (b : ContentBlock) × (IsFirst calls_emit_ideas b blocks)
        × (raw : String) × (net.ideas_field b.input ≡ ok raw)
        × (Carries net.decoders max_layers raw ideas)
  unfolding emitted
  emitted-IsFirst [] ideas h = absurd (cc)
  emitted-IsFirst (b ∷ bs) ideas h = elim (Bool-cases (calls_emit_ideas b)) [
    | inl t ↦
        let (raw, field, carries) =
          decode_field-Carries (net.ideas_field b.input) ideas (ground arith) in
        (b, here t, raw, field, carries)
    | inr t ↦
        let (c, first, raw, field, carries) = emitted-IsFirst bs ideas (ground arith) in
        (c, there t first, raw, field, carries)
  ]

  after-ok :
      {A : Type 0} (read : List ContentBlock → Result GoError A)
      (r : Result GoError (List ContentBlock)) (a : A)
      → after net cfg read r ≡ ok a
      → (blocks : List ContentBlock) × (r ≡ ok blocks) × (read blocks ≡ ok a)
  unfolding after
  after-ok read (ok blocks) a h = (blocks, refl, h)
  after-ok read (err e) a h = absurd (cc)

  -- The requests of the two methods
  abbrev pub generating : GenerateParams → MessagesRequest
  generating p = record {
    model = model_of cfg p.tier;
    max_tokens = cfg.max_tokens;
    system = generator_prompt;
    content = prompt_of p;
    emits_ideas = true;
  }

  abbrev pub classifying : String → MessagesRequest
  classifying text = record {
    model = model_of cfg moderation_tier;
    max_tokens = 8;
    system = classifier_prompt;
    content = text;
    emits_ideas = false;
  }

  -- Where GenerateIdeas answers ideas, the request with the prompt and the model of the tier was
  -- answered 2xx, and they are the ideas that stand, under at most three layers, in the ideas field
  -- of the input of the first block that calls emit_ideas.
  pub generate_ideas-Carries :
      (p : GenerateParams) (m : M) (ideas : List LlmIdea)
      → (generate_ideas net cfg p m).0 ≡ ok ideas
      → (blocks : List ContentBlock) × (IsAnswered (generating p) m blocks)
        × (b : ContentBlock) × (IsFirst calls_emit_ideas b blocks)
        × (raw : String) × (net.ideas_field b.input ≡ ok raw)
        × (Carries net.decoders max_layers raw ideas)
  unfolding generate_ideas
  generate_ideas-Carries p m ideas h =
      let (blocks, called, read) =
        after-ok (emitted net cfg) (do_messages net cfg (generating p) m).0 ideas h in
      let (b, first, raw, field, carries) = emitted-IsFirst blocks ideas read in
      (blocks, do_messages-IsAnswered (generating p) m blocks called, b, first, raw, field, carries)

  -- Where Moderate approves a text, the classifier was asked about it and answered 2xx, and the
  -- upper-cased text of its first block of text does not contain UNSAFE.
  pub moderate_approves :
      (text : String) (m : M)
      → (moderate net cfg text m).0 ≡ ok true
      → (blocks : List ContentBlock) × (IsAnswered (classifying text) m blocks)
        × (b : ContentBlock) × (IsFirst is_text b blocks)
        × (net.contains (net.to_upper b.text) "UNSAFE" ≡ false)
  unfolding moderate
  moderate_approves text m h =
      let (blocks, called, read) =
        after-ok (verdict net cfg) (do_messages net cfg (classifying text) m).0 true h in
      let (b, first, same) = verdict-IsFirst blocks true read in
      (blocks, do_messages-IsAnswered (classifying text) m blocks called, b, first, ground arith)

-- ===== src/Surprise/Anthropic.antt =====
-- services/backend/surprise/internal/llm/anthropic.go: the client of the Messages API. HTTP,
-- encoding/json, upper-casing and the search of a text in another are parameters; the body of a
-- request is marshalled with the schema of the tool, which is constant. The shape that is logged
-- after a failed decode is left out, and so is Embed.
use Prim.Native.String.{◌++◌ as ◌<>◌}
use perfect_gift.Prelude.{
  ℕ, ◌*◌, ◌/◌, String, Bool, true, false, List, [], ◌∷◌, Result, ok, err, Exec, eqb, ◌==◌, ◌&&◌,
  not, if◌then◌else◌,
}
use perfect_gift.Surprise.Types.{GoError, failure, wrapped}
use perfect_gift.Surprise.Inputs.{decimal}
use perfect_gift.Surprise.Llm.{LlmTier, sonnet, opus, moderation_tier, GenerateParams, LlmIdea}
use perfect_gift.Surprise.EmitIdeas.{Decoders, decode_ideas_field}

-- AnthropicConfig, without the embedding model
pub record AnthropicConfig : Type 0 where
  pub base_url : String
  pub api_key : String
  pub version : String
  pub sonnet_model : String
  pub opus_model : String
  pub haiku_model : String
  pub embedding_dim : ℕ
  pub max_tokens : ℕ
  pub timeout : ℕ

text_or : String → String → String
text_or default s = if s == "" then default else s

number_or : ℕ → ℕ → ℕ
number_or default n = if eqb n 0 then default else n

-- The defaults of NewAnthropicClient
unfoldable pub configured : AnthropicConfig → AnthropicConfig
unfolding text_or number_or
configured c = record c {
  base_url = text_or "https://api.anthropic.com" c.base_url;
  version = text_or "2023-06-01" c.version;
  sonnet_model = text_or "claude-sonnet-5" c.sonnet_model;
  opus_model = text_or "claude-opus-4-8" c.opus_model;
  haiku_model = text_or "claude-haiku-4-5" c.haiku_model;
  embedding_dim = number_or 1536 c.embedding_dim;
  max_tokens = number_or 2048 c.max_tokens;
  timeout = number_or (30 * 1000000000) c.timeout;
}

unfoldable pub model_of : AnthropicConfig → LlmTier → String
model_of c opus = c.opus_model
model_of c moderation_tier = c.haiku_model
model_of c sonnet = c.sonnet_model

-- messagesRequest, with the text of the one user message, and whether emit_ideas is forced
pub record MessagesRequest : Type 0 where
  pub model : String
  pub max_tokens : ℕ
  pub system : String
  pub content : String
  pub emits_ideas : Bool

pub record ContentBlock : Type 0 where
  pub type_of : String
  pub text : String
  pub name : String
  pub input : String

-- What the network and encoding/json do: the status and the body of the response.
pub record Network (M : Type 0) : Type 0 where
  pub marshal : MessagesRequest → Result GoError String
  pub post : String → String → Exec M GoError (ℕ × String)
  pub unmarshal : String → Result GoError (List ContentBlock)
  -- the raw value under "ideas" of a tool input, "" where it is missing
  pub ideas_field : String → Result GoError String
  pub decoders : Decoders
  pub to_upper : String → String
  pub contains : String → String → Bool

-- strings.Join
join_with : String → List String → String
join_with sep [] = ""
join_with sep (s ∷ []) = s
join_with sep (s ∷ t ∷ ts) = s <> (sep <> join_with sep (t ∷ ts))

section_of : String → List String → String
unfolding join_with
section_of title [] = ""
section_of title (s ∷ ss) = title <> ("\n- " <> (join_with "\n- " (s ∷ ss) <> "\n"))

refinement_of : String → String
refinement_of text = if text == "" then "" else "Refinement request: " <> (text <> "\n")

wanted : ℕ → ℕ
wanted n = if eqb n 0 then 5 else n

-- The prompt of GenerateIdeas
unfoldable pub prompt_of : GenerateParams → String
unfolding section_of refinement_of wanted
prompt_of p =
    "Holiday: "
    <> (p.holiday
        <> ("\nBudget band: "
            <> (p.budget_band
                <> ("\nPreferences: "
                    <> (p.preferences
                        <> ("\n"
                            <> (section_of "Poll answers from the partner:" p.poll_answers
                                <> (section_of "Curated inspiration seeds:" p.inspiration
                                    <> (refinement_of p.refinement
                                        <> ("Generate exactly "
                                            <> (decimal (wanted p.n) <> " ideas.")))))))))))

abbrev pub generator_prompt : String
generator_prompt =
    "You are PerfectGift's surprise-idea generator. Produce several genuinely good, budget-appropriate, non-generic surprise ideas for a partner. Ground every idea in the provided holiday, budget, preferences, poll answers, and inspiration snippets. Always return your answer by calling the emit_ideas tool."

abbrev pub classifier_prompt : String
classifier_prompt =
    "You are a content-safety classifier for a wholesome gift-planning app. Reply with exactly one word: SAFE or UNSAFE."

module _ {M : Type 0} (net : Network M) (cfg : AnthropicConfig) where
  unfoldable pub decoded_body :
      Result GoError (List ContentBlock) → Result GoError (List ContentBlock)
  decoded_body (ok blocks) = ok blocks
  decoded_body (err e) = err (wrapped "anthropic: decode response" e)

  unfoldable pub response_of : Result GoError (ℕ × String) → Result GoError (List ContentBlock)
  unfolding decoded_body
  response_of (err e) = err e
  response_of (ok (status, body)) =
      if eqb (status / 100) 2
      then decoded_body (net.unmarshal body)
      else err (failure ("anthropic: status " <> (decimal status <> (": " <> body))))

  unfoldable pub send_body : Result GoError String → Exec M GoError (List ContentBlock)
  unfolding response_of
  send_body (err e) m = (err e, m)
  send_body (ok body) m = (
    response_of (net.post (cfg.base_url <> "/v1/messages") body m).0,
    (net.post (cfg.base_url <> "/v1/messages") body m).1,
  )

  -- do
  unfoldable pub do_messages : MessagesRequest → Exec M GoError (List ContentBlock)
  unfolding send_body
  do_messages req m = send_body (net.marshal req) m

  unfoldable pub decode_field : Result GoError String → Result GoError (List LlmIdea)
  decode_field (err e) = err e
  decode_field (ok raw) = decode_ideas_field net.decoders raw

  unfoldable pub tool_input : Result GoError (List LlmIdea) → Result GoError (List LlmIdea)
  tool_input (ok ideas) = ok ideas
  tool_input (err e) = err (wrapped "decode tool input" e)

  -- The first block that calls emit_ideas
  unfoldable pub emitted : List ContentBlock → Result GoError (List LlmIdea)
  unfolding decode_field tool_input
  emitted [] = err (failure "anthropic: no emit_ideas tool_use in response")
  emitted (b ∷ bs) =
      let rest = emitted bs in
      if b.type_of == "tool_use" && b.name == "emit_ideas"
      then tool_input (decode_field (net.ideas_field b.input))
      else rest

  -- The first block of text, of a classifier
  unfoldable pub verdict : List ContentBlock → Result GoError Bool
  verdict [] = err (failure "anthropic: empty moderation response")
  verdict (b ∷ bs) =
      let rest = verdict bs in
      if b.type_of == "text" then ok (not (net.contains (net.to_upper b.text) "UNSAFE")) else rest

  unfoldable pub after :
      {A : Type 0}
      → (List ContentBlock → Result GoError A)
      → Result GoError (List ContentBlock)
      → Result GoError A
  after read (ok blocks) = read blocks
  after read (err e) = err e

  -- GenerateIdeas
  unfoldable pub generate_ideas : GenerateParams → Exec M GoError (List LlmIdea)
  unfolding after
  generate_ideas p m =
      let called =
        do_messages
          (record {
            model = model_of cfg p.tier;
            max_tokens = cfg.max_tokens;
            system = generator_prompt;
            content = prompt_of p;
            emits_ideas = true;
          })
          m in
      (after emitted called.0, called.1)

  -- Moderate
  unfoldable pub moderate : String → Exec M GoError Bool
  unfolding after
  moderate text m =
      let called =
        do_messages
          (record {
            model = model_of cfg moderation_tier;
            max_tokens = 8;
            system = classifier_prompt;
            content = text;
            emits_ideas = false;
          })
          m in
      (after verdict called.0, called.1)

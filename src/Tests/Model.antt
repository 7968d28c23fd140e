-- ===== src/Tests/Model.antt =====
-- Runs of the model client at concrete inputs.
use perfect_gift.Prelude.{
  ℕ, true, false, none, some, List, [], ◌∷◌, ◌≡◌, ◌↔◌, refl, ok, err, ◌==◌, if◌then◌else◌,
}
use perfect_gift.Surprise.Anthropic
use perfect_gift.Surprise.Types.{failure}
use perfect_gift.Surprise.Llm.{LlmIdea}
use perfect_gift.Surprise.EmitIdeas.{Decoders, decode_ideas_field}
use perfect_gift.Surprise.EmitIdeas.Layers.{Carries, decode_ideas_field_iff}
use perfect_gift.Surprise.Anthropic.{Network, AnthropicConfig, ContentBlock, configured, moderate}
use perfect_gift.Surprise.Answers.{IsAnswered, IsFirst, classifying, is_text, moderate_approves}

abbrev tea : LlmIdea
tea = record { title = "Tea"; why_it_fits = "Likes tea"; rough_cost = "10"; how_to = "Brew" }

-- "[tea]" is a list, and "'[tea]'" the text of it.
abbrev decoders : Decoders
decoders = record {
  ideas = λ raw. if raw == "[tea]" then ok (tea ∷ []) else err (failure "no array");
  text = λ raw. if raw == "'[tea]'" then some "[tea]" else none;
  wrapper = λ raw. none;
  single = λ raw. none;
}

decode_ideas_field_iff_example :
    (decode_ideas_field decoders "'[tea]'" ≡ ok (tea ∷ []))
    ↔ Carries decoders 3 "'[tea]'" (tea ∷ [])
decode_ideas_field_iff_example = decode_ideas_field_iff decoders "'[tea]'" (tea ∷ [])

abbrev safe : List ContentBlock
safe = record { type_of = "text"; text = "SAFE"; name = ""; input = "" } ∷ []

abbrev net : Network ℕ
net = record {
  marshal = λ req. ok req.content;
  post = λ url body m. (ok (200, "safe"), m);
  unmarshal = λ raw. ok safe;
  ideas_field = λ input. ok "";
  decoders = decoders;
  to_upper = λ s. s;
  contains = λ s part. s == part;
}

abbrev cfg : AnthropicConfig
cfg = record {
  base_url = "https://api.anthropic.com";
  api_key = "k";
  version = "2023-06-01";
  sonnet_model = "s";
  opus_model = "o";
  haiku_model = "h";
  embedding_dim = 8;
  max_tokens = 100;
  timeout = 1;
}

approved : (moderate net cfg "Tea" 0).0 ≡ ok true
unfolding moderate Anthropic.do_messages Anthropic.verdict
approved = refl

moderate_approves_example :
    (blocks : List ContentBlock) × (IsAnswered net cfg (classifying net cfg "Tea") 0 blocks)
    × (b : ContentBlock) × (IsFirst is_text b blocks)
    × (net.contains (net.to_upper b.text) "UNSAFE" ≡ false)
moderate_approves_example = moderate_approves net cfg "Tea" 0 approved

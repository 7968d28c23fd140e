-- ===== src/Surprise/EmitIdeas.antt =====
-- services/backend/surprise/internal/llm/anthropic.go: the lenient decoding of the emit_ideas
-- input. encoding/json is a parameter, by the type that it decodes into; the raw field of a
-- wrapper is "" where it is missing.
pub mod Layers
use Prim.Native.Char.{code}
use perfect_gift.Prelude.{
  ℕ, zero, suc, String, Bool, true, false, Option, none, some, List, [], ◌∷◌, Result, ok, err, eqb,
  ◌==◌, ◌&&◌, ◌||◌, if◌then◌else◌, trim_space,
}
use perfect_gift.Surprise.Types.{GoError}
use perfect_gift.Surprise.Llm.{LlmIdea}

pub record Decoders : Type 0 where
  pub ideas : String → Result GoError (List LlmIdea)
  pub text : String → Option String
  -- the raw value under "ideas"
  pub wrapper : String → Option String
  pub single : String → Option LlmIdea

-- The largest number of layers: maxIdeasDecodeDepth
abbrev pub max_layers : ℕ
max_layers = 3

unfoldable pub is_absent : String → Bool
is_absent raw = raw == "" || raw == "null"

first_is : ℕ → String → Bool
first_is c String.[] = false
first_is c (String.◌∷◌ d s) = eqb (code d) c

-- isJSONObject
unfoldable pub is_json_object : String → Bool
unfolding first_is
is_json_object raw = first_is b'{' (trim_space raw)

-- single != (Idea{})
unfoldable pub is_zero : LlmIdea → Bool
is_zero i = i.title == "" && (i.why_it_fits == "" && (i.rough_cost == "" && i.how_to == ""))

unfoldable pub lone : GoError → Option LlmIdea → Result GoError (List LlmIdea)
lone e none = err e
lone e (some i) = if is_zero i then err e else ok (i ∷ [])

module _ (json : Decoders) where
  -- An object: a wrapper that carries a value, or one idea.
  unfoldable pub unwrap :
      (String → Result GoError (List LlmIdea))
      → GoError
      → String
      → Option String
      → Result GoError (List LlmIdea)
  unwrap again e raw none = lone e (json.single raw)
  unwrap again e raw (some inner) = if inner == "" then lone e (json.single raw) else again inner

  -- No array: a text whose content is the value, or an object.
  unfoldable pub peel :
      (String → Result GoError (List LlmIdea))
      → GoError
      → String
      → Option String
      → Result GoError (List LlmIdea)
  peel again e raw (some s) = again s
  peel again e raw none =
      if is_json_object raw then unwrap again e raw (json.wrapper raw) else err e

  unfoldable pub or_peel :
      (String → Result GoError (List LlmIdea))
      → String
      → Result GoError (List LlmIdea)
      → Result GoError (List LlmIdea)
  or_peel again raw (ok ideas) = ok ideas
  or_peel again raw (err e) = peel again e raw (json.text raw)

  -- decodeIdeasFieldDepth, on the layers that are left
  unfoldable pub decode_ideas_field_depth : ℕ → String → Result GoError (List LlmIdea)
  decode_ideas_field_depth zero raw = if is_absent raw then ok [] else json.ideas raw
  decode_ideas_field_depth (suc left) raw =
      if is_absent raw then ok [] else or_peel (decode_ideas_field_depth left) raw (json.ideas raw)

  -- decodeIdeasField
  unfoldable pub decode_ideas_field : String → Result GoError (List LlmIdea)
  decode_ideas_field raw = decode_ideas_field_depth max_layers raw

-- ===== src/Surprise/Inputs.antt =====
-- services/backend/surprise/internal/pipeline/pipeline.go: what the pipeline makes of a request
-- before it calls out: the normalised cache key, the grounding query, the tier and the
-- candidates.
use Prim.Native.Char.{Char, code}
use Prim.Native.String.{◌++◌}
use perfect_gift.Prelude.{
  ℕ, zero, suc, ◌/◌, ◌%◌, String, List, [], ◌∷◌, map, is_space, trim_space, eqb, ltb, if◌then◌else◌,
}
use perfect_gift.Surprise.Types.{Tier, Request, Idea, other_moderation}
use perfect_gift.Surprise.Llm.{LlmTier, LlmIdea}

digit : ℕ → Char
digit d =
    if eqb d 0
    then "0"
    else if eqb d 1
    then "1"
    else if eqb d 2
    then "2"
    else if eqb d 3
    then "3"
    else if eqb d 4
    then "4"
    else if eqb d 5
    then "5"
    else if eqb d 6
    then "6"
    else if eqb d 7
    then "7"
    else if eqb d 8
    then "8"
    else "9"

-- fmt's %d; a number below 2 ^ 64 has at most 20 digits.
decimal_fuel : ℕ → ℕ → String → String
unfolding digit
decimal_fuel zero n rest = rest
decimal_fuel (suc f) n rest =
    let here = String.◌∷◌ (digit (n % 10)) rest in
    let more = decimal_fuel f (n / 10) here in if ltb n 10 then here else more

pub decimal : ℕ → String
unfolding decimal_fuel
decimal n = decimal_fuel 20 n ""

-- strings.Fields: the word in progress stands in front of the words that follow it.
flush : String → List String → List String
flush String.[] ws = ws
flush (String.◌∷◌ c w) ws = String.◌∷◌ c w ∷ ws

split_fields : String → String × List String
unfolding flush
split_fields String.[] = ("", [])
split_fields (String.◌∷◌ c s) =
    let (w, ws) = split_fields s in
    if is_space (code c) then ("", flush w ws) else (String.◌∷◌ c w, ws)

unfoldable pub fields : String → List String
unfolding split_fields
fields s = let (w, ws) = split_fields s in flush w ws

-- strings.Join
unfoldable pub join : String → List String → String
join sep [] = ""
join sep (w ∷ []) = w
join sep (w ∷ v ∷ ws) = w ++ sep ++ join sep (v ∷ ws)

unfoldable pub grounding_query : Request → String
unfolding trim_space
grounding_query r =
    trim_space (join " " (r.holiday_id ∷ r.budget_band ∷ r.preferences_text ∷ r.refinement ∷ []))

-- string(req.Tier)
tier_text : Tier → String
tier_text Tier.sonnet = "sonnet"
tier_text Tier.opus = "opus"
tier_text (Tier.other_tier t) = t

-- The two library functions over all of Unicode and over bits are parameters.
module _ (to_lower sha256_hex : String → String) where
  norm : String → String
  unfolding fields
  norm s = join " " (fields (to_lower s))

  unfoldable pub hash_inputs : Request → ℕ → String
  unfolding norm tier_text
  hash_inputs r n = sha256_hex (
      join "\u{1f}" (
        norm r.holiday_id
        ∷ norm r.budget_band
        ∷ norm r.preferences_text
        ∷ norm r.poll_id
        ∷ norm r.refinement
        ∷ tier_text r.tier
        ∷ ("n=" ++ decimal n)
        ∷ []))

unfoldable pub tier_for : Tier → LlmTier
tier_for Tier.opus = LlmTier.opus
tier_for _ = LlmTier.sonnet

-- The fields that toCandidates leaves are Go's zero values.
to_candidate : LlmIdea → Idea
to_candidate g = record {
  id = "";
  request_id = "";
  title = g.title;
  why_it_fits = g.why_it_fits;
  rough_cost = g.rough_cost;
  how_to = g.how_to;
  rank = 0;
  moderation = other_moderation "";
  embedding = [];
  created_at = 0;
}

unfoldable pub to_candidates : List LlmIdea → List Idea
unfolding to_candidate
to_candidates = map to_candidate

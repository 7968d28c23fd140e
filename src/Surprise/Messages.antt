-- ===== src/Surprise/Messages.antt =====
-- The messages and enums of services/backend/surprise/api/surprise/v1/surprise.proto, and the
-- mappings at the end of services/backend/surprise/internal/app/surprise_server.go.
use perfect_gift.Prelude.{ℕ, ◌%◌, ◌^◌, String}
use perfect_gift.Surprise.Types.{
  Status, queued, running, ready, failed, Tier, sonnet, opus, Moderation, approved, rejected, Idea,
}

pub data GenerationStatus : Type 0 where
  generation_unspecified generation_queued generation_running : GenerationStatus
  generation_ready generation_failed : GenerationStatus

pub data ModelTier : Type 0 where
  model_tier_unspecified model_tier_sonnet model_tier_opus : ModelTier

pub data ModerationStatus : Type 0 where
  moderation_unspecified moderation_approved moderation_rejected : ModerationStatus

pub record GenerationRequest : Type 0 where
  pub user_id : String
  pub holiday_id : String
  pub budget_band : String
  pub preferences_text : String
  pub poll_id : String
  pub idempotency_key : String
  pub tier : ModelTier

-- RequestGenerationResponse and RefineResponse
pub record GenerationResponse : Type 0 where
  pub request_id : String
  pub status : GenerationStatus

pub record StatusResponse : Type 0 where
  pub status : GenerationStatus
  pub progress : ℕ

pub record IdeaMessage : Type 0 where
  pub id : String
  pub request_id : String
  pub title : String
  pub why_it_fits : String
  pub rough_cost : String
  pub how_to : String
  pub rank : ℕ
  pub moderation_status : ModerationStatus

abbrev pub u32 : ℕ → ℕ
u32 n = n % 2 ^ 32

unfoldable pub tier_from_proto : ModelTier → Tier
tier_from_proto model_tier_opus = opus
tier_from_proto _ = sonnet

unfoldable pub status_to_proto : Status → GenerationStatus
status_to_proto queued = generation_queued
status_to_proto running = generation_running
status_to_proto ready = generation_ready
status_to_proto failed = generation_failed
status_to_proto _ = generation_unspecified

unfoldable pub moderation_to_proto : Moderation → ModerationStatus
moderation_to_proto approved = moderation_approved
moderation_to_proto rejected = moderation_rejected
moderation_to_proto _ = moderation_unspecified

unfoldable pub idea_to_proto : Idea → IdeaMessage
unfolding moderation_to_proto
idea_to_proto i = record {
  id = i.id;
  request_id = i.request_id;
  title = i.title;
  why_it_fits = i.why_it_fits;
  rough_cost = i.rough_cost;
  how_to = i.how_to;
  rank = u32 i.rank;
  moderation_status = moderation_to_proto i.moderation;
}

-- ===== src/Surprise/Types.antt =====
-- services/backend/surprise/internal/domain/types.go and the payloads of events/events.go: the
-- entities, and the storage and messaging interfaces that the handlers and the worker depend on.
use perfect_gift.Prelude.{ℕ, String, List, Bool, Result, Exec, Call}

-- Nanoseconds since year 1, for which time.Time.IsZero is `== 0`.
abbrev pub Time : Type 0
Time = ℕ

-- A []float32, each as its bit pattern: embeddings are only passed on.
abbrev pub Embedding : Type 0
Embedding = List ℕ

-- `Status` is a Go string; `other_status` stands for every value but the four constants.
pub data Status : Type 0 where
  queued running ready failed : Status
  other_status : String → Status

pub data Tier : Type 0 where
  sonnet opus : Tier
  other_tier : String → Tier

pub data Moderation : Type 0 where
  approved rejected pending : Moderation
  other_moderation : String → Moderation

pub record Request : Type 0 where
  pub id : String
  pub user_id : String
  pub holiday_id : String
  pub budget_band : String
  pub preferences_text : String
  pub poll_id : String
  pub idempotency_key : String
  pub status : Status
  pub tier : Tier
  pub refinement : String
  pub created_at : Time

pub record Idea : Type 0 where
  pub id : String
  pub request_id : String
  pub title : String
  pub why_it_fits : String
  pub rough_cost : String
  pub how_to : String
  pub rank : ℕ
  pub moderation : Moderation
  pub embedding : Embedding
  pub created_at : Time

pub record StatusInfo : Type 0 where
  pub status : Status
  pub progress : ℕ

-- Go's `error` values. `panicked` is a nil dereference, which no caller of the program recovers
-- from; `permanent` and `wrapped` are the links of an error chain.
pub data GoError : Type 0 where
  not_found duplicate circuit_open panicked : GoError
  context_done failure : String → GoError
  permanent : GoError → GoError
  wrapped : String → GoError → GoError

pub record GenerationRequested : Type 0 where
  pub request_id : String
  pub tier : Tier

pub record IdeasReady : Type 0 where
  pub request_id : String
  pub user_id : String
  pub idea_count : ℕ

-- domain.Repository over a state W. The reads change nothing.
pub record Repository (W : Type 0) : Type 0 where
  pub create_request : Request → Call W GoError
  pub get_request : String → W → Result GoError Request
  pub get_request_by_idempotency_key : String → W → Result GoError Request
  pub set_request_status : String → Status → Call W GoError
  pub mark_refinement : String → String → Call W GoError
  pub save_ideas : String → List Idea → Call W GoError
  pub get_ideas : String → W → Result GoError (List Idea)
  pub get_idea : String → W → Result GoError Idea
  pub save_idea_for_user : String → String → Call W GoError

-- domain.Cache; the last argument before the state is the time to live.
pub record Cache (W : Type 0) : Type 0 where
  pub set_status : String → StatusInfo → ℕ → Call W GoError
  pub get_status : String → W → Result GoError StatusInfo
  pub set_idempotency_if_absent : String → String → ℕ → Exec W GoError (Bool × String)
  pub get_llm_cache : String → W → Result GoError (List Idea)
  pub set_llm_cache : String → List Idea → ℕ → Call W GoError

-- events.Publisher
pub record Publisher (W : Type 0) : Type 0 where
  pub publish_generation_requested : GenerationRequested → Call W GoError
  pub publish_ideas_ready : IdeasReady → Call W GoError

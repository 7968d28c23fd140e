-- ===== src/Poll/Ports.antt =====
-- services/backend/poll/internal/ports/ports.go: what the server needs of its stores, over a
-- state W.
use perfect_gift.Prelude.{ℕ, String, List, Bool, Result, Exec, Call}
use perfect_gift.Poll.Model.{Poll, Answer, Response}

-- The sentinel errors, and every other error with its text.
pub data PollError : Type 0 where
  not_found already_completed : PollError
  failure : String → PollError

pub record LinkedPoll : Type 0 where
  pub poll : Poll
  pub link_revoked : Bool
  pub link_expires_at : ℕ

pub record PollCompleted : Type 0 where
  pub poll_id : String
  pub surprise_request_id : String
  pub owner_user_id : String
  pub completed_at : ℕ

-- Repo. The reads change nothing.
pub record Repo (W : Type 0) : Type 0 where
  pub create_poll : Poll → String → ℕ → Call W PollError
  pub get_by_token_hash : String → W → Result PollError LinkedPoll
  pub complete_with_response : String → List Answer → String → ℕ → Exec W PollError String
  pub get_poll_by_id : String → W → Result PollError Poll
  pub get_responses : String → W → Result PollError (List Response)

-- RateLimiter: key, budget and window.
pub record RateLimiter (W : Type 0) : Type 0 where
  pub allow : String → ℕ → ℕ → Exec W PollError Bool

pub record Publisher (W : Type 0) : Type 0 where
  pub publish_poll_completed : PollCompleted → Call W PollError

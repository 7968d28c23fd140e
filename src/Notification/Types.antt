-- ===== src/Notification/Types.antt =====
-- services/backend/notification/internal/notify/types.go: devices, the outbox and the events that
-- the service consumes. encoding/json is a parameter: `marshal` encodes an object by its keys.
use Prim.Native.String.{◌++◌}
use perfect_gift.Prelude.{
  ℕ, String, List, [], ◌∷◌, Bool, true, false, Option, none, ◌||◌, ◌==◌, if◌then◌else◌, Result, ok,
  err,
}

-- `Platform` is a Go string; `other_platform` stands for every value but the two constants.
pub data Platform : Type 0 where
  ios android : Platform
  other_platform : String → Platform

unfoldable pub is_valid : Platform → Bool
is_valid ios = true
is_valid android = true
is_valid (other_platform p) = false

pub data Kind : Type 0 where
  poll_completed ideas_ready : Kind

pub data Status : Type 0 where
  pending sent failed : Status

-- Times are nanoseconds since year 1.
pub record Device : Type 0 where
  pub id : String
  pub user_id : String
  pub platform : Platform
  pub push_token : String
  pub app_version : String
  pub registered_at : ℕ
  pub last_seen_at : ℕ
  pub active : Bool

pub record Outbox : Type 0 where
  pub id : String
  pub user_id : String
  pub type : Kind
  pub payload : String
  pub dedupe_key : String
  pub status : Status
  pub attempts : ℕ
  pub next_attempt_at : ℕ
  pub created_at : ℕ
  pub sent_at : Option ℕ

pub record PollCompletedEvent : Type 0 where
  pub poll_id : String
  pub surprise_request_id : String
  pub owner_user_id : String
  pub completed_at : ℕ

-- The count is an int, as its bit pattern.
pub record IdeasReadyEvent : Type 0 where
  pub request_id : String
  pub user_id : String
  pub idea_count : ℕ

-- Go's `error` values; `invalid_token` is the sentinel ErrInvalidToken.
pub data NotifyError : Type 0 where
  invalid_token : NotifyError
  failure : String → NotifyError
  wrapped : String → NotifyError → NotifyError

-- A value of a map[string]any.
pub data Value : Type 0 where
  text : String → Value
  number : ℕ → Value

abbrev pub Marshal : Type 0
Marshal = List (String × Value) → Result NotifyError String

new_row : String → Kind → String → ℕ → String → Outbox
new_row user_id type dedupe_key now payload = record {
  id = "";
  user_id = user_id;
  type = type;
  payload = payload;
  dedupe_key = dedupe_key;
  status = pending;
  attempts = 0;
  next_attempt_at = now;
  created_at = now;
  sent_at = none;
}

unfoldable pub poll_key : PollCompletedEvent → String
poll_key e = "poll_completed:" ++ e.poll_id ++ ":" ++ e.owner_user_id

unfoldable pub ideas_key : IdeasReadyEvent → String
ideas_key e = "ideas_ready:" ++ e.request_id ++ ":" ++ e.user_id

-- A marshalling error or the row of its payload.
with_payload : (String → Outbox) → Result NotifyError String → Result NotifyError Outbox
with_payload row (ok payload) = ok (row payload)
with_payload row (err e) = err e

module _ (marshal : Marshal) (now : ℕ) where
  unfoldable pub poll_to_outbox : PollCompletedEvent → Result NotifyError Outbox
  unfolding new_row poll_key with_payload
  poll_to_outbox e =
      if e.poll_id == "" || e.owner_user_id == ""
      then err (failure "poll_completed: missing poll_id or owner_user_id")
      else with_payload (new_row e.owner_user_id poll_completed (poll_key e) now) (
          marshal (
            ("title", text "Your poll is done")
            ∷ ("body", text "Your partner finished the poll — tap to sharpen your ideas.")
            ∷ ("poll_id", text e.poll_id)
            ∷ ("surprise_request_id", text e.surprise_request_id)
            ∷ []))

  unfoldable pub ideas_to_outbox : IdeasReadyEvent → Result NotifyError Outbox
  unfolding new_row ideas_key with_payload
  ideas_to_outbox e =
      if e.request_id == "" || e.user_id == ""
      then err (failure "ideas_ready: missing request_id or user_id")
      else with_payload (new_row e.user_id ideas_ready (ideas_key e) now) (
          marshal (
            ("title", text "Your surprise ideas are ready")
            ∷ ("body", text "We generated some ideas for your surprise — tap to see them.")
            ∷ ("request_id", text e.request_id)
            ∷ ("idea_count", number e.idea_count)
            ∷ []))

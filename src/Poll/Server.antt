-- ===== src/Poll/Server.antt =====
-- services/backend/poll/internal/app/poll_server.go, over any repository, rate limiter and
-- publisher. The context gives the verified subject, the metadata and the peer; the clock's
-- readings, the new ids and the minted token are arguments. SHA-256 (in hexadecimal),
-- time.RFC3339 and fmt's %q are parameters.
pub mod World
pub mod Links
pub mod Reading
pub mod Submissions
use Prim.Native.String.{◌++◌}
use perfect_gift.Prelude.{
  ℕ, ◌+◌, ◌-◌, ◌*◌, ◌%◌, ◌^◌, String, Bool, true, false, not, Option, none, some, List, ok, err,
  Exec, pure, refuse_if, try_read, try_exec, try_call, ignore, ◌>>=◌, ◌>>◌, ltb, eqb, ◌==◌,
  if◌then◌else◌, is_blank, trim_space, trim_right_slash, before_comma, replace_first, take_text,
  map,
}
use perfect_gift.Grpc
use perfect_gift.Grpc.{
  fail_with, invalid_argument, unauthenticated, resource_exhausted, internal, Metadata,
  first_header,
}
use perfect_gift.Poll.Model.{
  Status, active, Answer, Poll, Response, Invalid, validate_questions, validate_answers, describe,
}
use perfect_gift.Poll.Messages.{QuestionMessage, questions_from_proto, questions_to_proto}
use perfect_gift.Poll.Ports.{
  PollError, not_found, already_completed, LinkedPoll, Repo, RateLimiter, Publisher,
}

-- Durations in nanoseconds; budgets are counts.
pub record Tuning : Type 0 where
  pub default_ttl : ℕ
  pub per_token_budget : ℕ
  pub per_token_window : ℕ
  pub per_ip_budget : ℕ
  pub per_ip_window : ℕ
  pub allowed_origin : String
  pub link_path : String

abbrev pub second : ℕ
second = 1_000_000_000

abbrev or_default : ℕ → ℕ → ℕ
or_default n d = if eqb n 0 then d else n

-- The defaults of NewServer; a negative value is read as 0 here.
unfoldable pub with_defaults : Tuning → Tuning
with_defaults t = record {
  default_ttl = or_default t.default_ttl (7 * 24 * 3600 * second);
  per_token_budget = or_default t.per_token_budget 5;
  per_token_window = or_default t.per_token_window (3600 * second);
  per_ip_budget = or_default t.per_ip_budget 30;
  per_ip_window = or_default t.per_ip_window (3600 * second);
  allowed_origin = t.allowed_origin;
  link_path = if t.link_path == "" then "/p/{token}" else t.link_path;
}

-- What a handler reads of its context.
pub record Context : Type 0 where
  pub subject : Option String
  pub metadata : Option Metadata
  pub peer : Option String

pub record CreateRequest : Type 0 where
  pub title : String
  pub questions : List QuestionMessage
  pub surprise_request_id : String
  pub ttl_seconds : ℕ

pub record CreateResponse : Type 0 where
  pub poll_id : String
  pub link_token : String
  pub link_url : String
  pub expires_at : String

pub record PollView : Type 0 where
  pub poll_id : String
  pub title : String
  pub questions : List QuestionMessage

pub record ResponseMessage : Type 0 where
  pub id : String
  pub answers : List Answer
  pub submitted_at : String

pub record Server (W : Type 0) : Type 0 where
  pub repo : Repo W
  pub limiter : RateLimiter W
  pub publisher : Publisher W
  pub tune : Tuning
  pub sha256_hex : String → String
  pub rfc3339 : ℕ → String
  pub quote : String → String

-- auth.SubjectFrom: an empty subject counts as none.
unfoldable pub subject_from : Context → Option String
subject_from ctx = elim ctx.subject [ none ↦ none | some s ↦ if s == "" then none else some s ]

-- uniform NotFound
abbrev pub gone : Grpc.Status
gone = fail_with Grpc.not_found "not found"

-- time.Duration(secs) * time.Second, on int64, added to a time.
unfoldable pub add_seconds : ℕ → ℕ → ℕ
add_seconds now secs =
    let d = (secs * second) % 2 ^ 64 in if ltb d (2 ^ 63) then now + d else now - (2 ^ 64 - d)

unfoldable pub expiry : Tuning → ℕ → ℕ → ℕ
unfolding add_seconds
expiry tune ttl_seconds now =
    if ltb 0 ttl_seconds then add_seconds now ttl_seconds else now + tune.default_ttl

abbrev is_active : Status → Bool
is_active active = true
is_active _ = false

-- time.Time.After is `ltb` the other way round.
unfoldable pub fetchable : ℕ → LinkedPoll → Bool
fetchable now lp =
    if lp.link_revoked
    then false
    else if ltb lp.link_expires_at now
    then false
    else if not (is_active lp.poll.status)
    then false
    else not (ltb lp.poll.expires_at now)

forwarded : Metadata → Option String
unfolding first_header
forwarded md =
    if first_header md "x-forwarded-for" == ""
    then (if first_header md "x-real-ip" == "" then none else some (first_header md "x-real-ip"))
    else some (trim_space (before_comma (first_header md "x-forwarded-for")))

peer_or_unknown : Option String → String
peer_or_unknown none = "unknown"
peer_or_unknown (some addr) = addr

unfoldable pub client_ip : Context → String
unfolding forwarded peer_or_unknown
client_ip ctx = elim ctx.metadata [
  | none ↦ peer_or_unknown ctx.peer
  | some md ↦ elim (forwarded md) [ none ↦ peer_or_unknown ctx.peer | some ip ↦ ip ]
]

user_agent : Option Metadata → String
unfolding first_header
user_agent none = ""
user_agent (some md) =
    if first_header md "grpcgateway-user-agent" == ""
    then first_header md "user-agent"
    else first_header md "grpcgateway-user-agent"

lookup_failed : PollError → Grpc.Status
lookup_failed not_found = gone
lookup_failed _ = fail_with internal "lookup failed"

record_failed : PollError → Grpc.Status
record_failed already_completed = gone
record_failed _ = fail_with internal "could not record response"

-- `if err := validate(...); err != nil { InvalidArgument with err.Error() }`
refuse_invalid : {W : Type 0} → (String → String) → Option Invalid → Exec W Grpc.Status (Unit {0})
refuse_invalid quote none w = (ok tt, w)
refuse_invalid quote (some e) w = (err (fail_with invalid_argument (describe quote e)), w)

module _ {W : Type 0} (s : Server W) where
  unfoldable pub fingerprint : Context → String → String
  unfolding user_agent
  fingerprint ctx ip = take_text 16 (s.sha256_hex (ip ++ "|" ++ user_agent ctx.metadata))

  unfoldable pub build_link_url : String → String
  build_link_url raw =
      trim_right_slash s.tune.allowed_origin ++ replace_first s.tune.link_path "{token}" raw

  unfoldable pub limit : String → ℕ → ℕ → Exec W Grpc.Status (Unit {0})
  limit key budget window = do
    allowed ←
        try_exec (λ _. fail_with internal "rate limiter unavailable")
          (s.limiter.allow key budget window)
    refuse_if (not allowed) (fail_with resource_exhausted "rate limit exceeded")

  minted_poll : String → String → ℕ → CreateRequest → Poll
  unfolding expiry
  minted_poll id owner now req = record {
    id = id;
    owner_user_id = owner;
    surprise_request_id = req.surprise_request_id;
    title = req.title;
    questions = questions_from_proto req.questions;
    status = active;
    expires_at = expiry s.tune req.ttl_seconds now;
    created_at = now;
  }

  -- Behind the minted token, of which the store gets the hash alone.
  create_minted : Poll → Option String → Exec W Grpc.Status CreateResponse
  unfolding build_link_url
  create_minted p none w = (err (fail_with internal "could not mint token"), w)
  create_minted p (some raw) w =
      (do
        try_call (λ _. fail_with internal "could not create poll")
            (s.repo.create_poll p (s.sha256_hex raw) p.expires_at)
        pure (record {
          poll_id = p.id;
          link_token = raw;
          link_url = build_link_url raw;
          expires_at = s.rfc3339 p.expires_at;
        }))
        w

  create_owned :
      Option String → String → ℕ → Option String → CreateRequest → Exec W Grpc.Status CreateResponse
  unfolding create_minted minted_poll refuse_invalid
  create_owned none id now minted req w =
      (err (fail_with unauthenticated "authentication required"), w)
  create_owned (some owner) id now minted req w =
      (do
        refuse_if (is_blank req.title) (fail_with invalid_argument "title is required")
        refuse_invalid s.quote (validate_questions (questions_from_proto req.questions))
        create_minted (minted_poll id owner now req) minted)
        w

  -- CreatePoll
  unfoldable pub create_poll :
      Context → String → ℕ → Option String → CreateRequest → Exec W Grpc.Status CreateResponse
  unfolding create_owned subject_from
  create_poll ctx id now minted req = create_owned (subject_from ctx) id now minted req

  -- GetPollByToken; `now` is the reading of the clock in fetchable.
  unfoldable pub get_poll_by_token : Context → ℕ → String → Exec W Grpc.Status PollView
  unfolding limit lookup_failed fetchable
  get_poll_by_token ctx now raw = do
    refuse_if (raw == "") gone
    limit ("rl:fetch:ip:" ++ client_ip ctx) s.tune.per_ip_budget s.tune.per_ip_window
    lp ← try_read lookup_failed (s.repo.get_by_token_hash (s.sha256_hex raw))
    refuse_if (not (fetchable now lp)) gone
    pure (record {
      poll_id = lp.poll.id;
      title = lp.poll.title;
      questions = questions_to_proto lp.poll.questions;
    })

  -- What follows the rate limits of SubmitResponse; the clock is read in fetchable and again for
  -- the row.
  unfoldable pub submit_checked : Context → ℕ → ℕ → String → List Answer → Exec W Grpc.Status Bool
  unfolding lookup_failed record_failed fetchable refuse_invalid fingerprint
  submit_checked ctx now at hash answers = do
    lp ← try_read lookup_failed (s.repo.get_by_token_hash hash)
    refuse_if (not (fetchable now lp)) gone
    refuse_invalid s.quote (validate_answers lp.poll.questions answers)
    _ ←
        try_exec record_failed
          (s.repo.complete_with_response lp.poll.id answers (fingerprint ctx (client_ip ctx)) at)
    ignore (
        s.publisher.publish_poll_completed (record {
          poll_id = lp.poll.id;
          surprise_request_id = lp.poll.surprise_request_id;
          owner_user_id = lp.poll.owner_user_id;
          completed_at = at;
        }))
    pure true

  -- SubmitResponse
  unfoldable pub submit_response : Context → ℕ → ℕ → String → List Answer → Exec W Grpc.Status Bool
  unfolding limit submit_checked
  submit_response ctx now at raw answers = do
    refuse_if (raw == "") gone
    limit ("rl:submit:token:" ++ s.sha256_hex raw) s.tune.per_token_budget s.tune.per_token_window
    limit ("rl:submit:ip:" ++ client_ip ctx) s.tune.per_ip_budget s.tune.per_ip_window
    submit_checked ctx now at (s.sha256_hex raw) answers

  response_message : Response → ResponseMessage
  response_message r = record {
    id = r.id;
    answers = r.answers;
    submitted_at = s.rfc3339 r.submitted_at;
  }

  responses_owned : Option String → String → Exec W Grpc.Status (List ResponseMessage)
  unfolding lookup_failed response_message
  responses_owned none poll_id w = (err (fail_with unauthenticated "authentication required"), w)
  responses_owned (some owner) poll_id w =
      (do
        refuse_if (poll_id == "") (fail_with invalid_argument "poll_id is required")
        p ← try_read lookup_failed (s.repo.get_poll_by_id poll_id)
        refuse_if (not (p.owner_user_id == owner)) gone
        rs ←
            try_read (λ _. fail_with internal "could not read responses")
              (s.repo.get_responses poll_id)
        pure (map response_message rs))
        w

  -- GetResponses
  unfoldable pub get_responses : Context → String → Exec W Grpc.Status (List ResponseMessage)
  unfolding responses_owned subject_from
  get_responses ctx poll_id = responses_owned (subject_from ctx) poll_id

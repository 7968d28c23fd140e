-- ===== src/Surprise/Server.antt =====
-- services/backend/surprise/internal/app/surprise_server.go: the request path, over any repository,
-- cache and publisher. A handler returns its response or gRPC status beside the state it leaves.
-- uuid.NewString() and time.Now() are arguments.
pub mod Validation
pub mod Authorization
pub mod Idempotency
use perfect_gift.Prelude.{
  ℕ, ◌*◌, String, Bool, true, false, ◌||◌, ◌&&◌, not, Option, none, some, List, map, Result, ok,
  err, Exec, pure, refuse_if, try_read, try_exec, try_call, ignore, ◌>>=◌, ◌>>◌, eqb, ◌==◌,
  if◌then◌else◌,
}
use perfect_gift.Grpc
use perfect_gift.Grpc.{
  fail_with, invalid_argument, permission_denied, internal, Metadata, first_header,
}
use perfect_gift.Surprise.Types.{
  failure, context_done, permanent, wrapped, Time, queued, Request, StatusInfo, GoError, duplicate,
  Repository, Cache, Publisher,
}
use perfect_gift.Surprise.Messages.{
  GenerationRequest, GenerationResponse, StatusResponse, IdeaMessage, generation_queued, u32,
  tier_from_proto, status_to_proto, idea_to_proto,
}

-- Durations in nanoseconds.
pub record ServerConfig : Type 0 where
  pub status_ttl : ℕ
  pub idempotency_ttl : ℕ

abbrev pub second : ℕ
second = 1_000_000_000

-- The defaults of NewServer.
unfoldable pub with_defaults : ServerConfig → ServerConfig
with_defaults cfg = record {
  status_ttl = if eqb cfg.status_ttl 0 then 3600 * second else cfg.status_ttl;
  idempotency_ttl = if eqb cfg.idempotency_ttl 0 then 24 * 3600 * second else cfg.idempotency_ttl;
}

pub record Server (W : Type 0) : Type 0 where
  pub repo : Repository W
  pub cache : Cache W
  pub publisher : Publisher W
  pub cfg : ServerConfig

-- callerID, of a context with metadata or without.
unfoldable pub caller_id : Option Metadata → String
unfolding first_header
caller_id none = ""
caller_id (some md) = first_header md "x-user-id"

unfoldable pub require_owner : {W : Type 0} → String → String → Exec W Grpc.Status (Unit {0})
require_owner caller owner =
    refuse_if (not (caller == "") && not (caller == owner))
      (fail_with permission_denied "caller does not own this resource")

respond : Request → GenerationResponse
respond r = record { request_id = r.id; status = status_to_proto r.status }

-- A new request as RequestGeneration persists it.
unfoldable pub new_request : String → Time → GenerationRequest → Request
new_request new_id now req = record {
  id = new_id;
  user_id = req.user_id;
  holiday_id = req.holiday_id;
  budget_band = req.budget_band;
  preferences_text = req.preferences_text;
  poll_id = req.poll_id;
  idempotency_key = req.idempotency_key;
  status = queued;
  tier = tier_from_proto req.tier;
  refinement = "";
  created_at = now;
}

abbrev queued_info : StatusInfo
queued_info = record { status = queued; progress = 0 }

module _ {W : Type 0} (s : Server W) where
  -- The second lookup of existingResponse, and its last resort.
  resolve_by_key : String → Result GoError Request → GenerationResponse
  unfolding respond
  resolve_by_key existing_id (ok r) = respond r
  resolve_by_key existing_id (err _) = record {
    request_id = existing_id;
    status = generation_queued;
  }

  resolve_by_id : String → String → W → Result GoError Request → GenerationResponse
  unfolding respond resolve_by_key
  resolve_by_id existing_id key w (ok r) = respond r
  resolve_by_id existing_id key w (err _) =
      resolve_by_key existing_id (s.repo.get_request_by_idempotency_key key w)

  unfoldable pub existing_response : String → String → Exec W Grpc.Status GenerationResponse
  unfolding resolve_by_id
  existing_response existing_id key w =
      if existing_id == ""
      then (ok (resolve_by_key existing_id (s.repo.get_request_by_idempotency_key key w)), w)
      else (ok (resolve_by_id existing_id key w (s.repo.get_request existing_id w)), w)

  persist_failed : Grpc.Status
  persist_failed = fail_with internal "persist request failed"

  -- errors.Is(err, ErrDuplicate): through every error that wraps another.
  is_duplicate : GoError → Bool
  is_duplicate duplicate = true
  is_duplicate (wrapped _ e) = is_duplicate e
  is_duplicate (permanent e) = is_duplicate e
  is_duplicate _ = false

  existing_or_fail : Result GoError Request → Result Grpc.Status GenerationResponse
  unfolding respond persist_failed
  existing_or_fail (ok existing) = ok (respond existing)
  existing_or_fail (err _) = err persist_failed

  enqueue_new : Request → Exec W Grpc.Status GenerationResponse
  enqueue_new r = do
    ignore (s.cache.set_status r.id queued_info s.cfg.status_ttl)
    try_call (λ _. fail_with internal "enqueue job failed")
        (s.publisher.publish_generation_requested (record { request_id = r.id; tier = r.tier }))
    pure (record { request_id = r.id; status = generation_queued })

  -- What follows CreateRequest: its error, or the status, the job and the answer.
  after_create : Request → Option GoError → Exec W Grpc.Status GenerationResponse
  unfolding existing_or_fail enqueue_new is_duplicate
  after_create r none w = enqueue_new r w
  after_create r (some e) w =
      if is_duplicate e
      then (existing_or_fail (s.repo.get_request_by_idempotency_key r.idempotency_key w), w)
      else (err persist_failed, w)

  create_and_enqueue : Request → Exec W Grpc.Status GenerationResponse
  unfolding after_create
  create_and_enqueue r w =
      after_create r (s.repo.create_request r w).0 (s.repo.create_request r w).1

  -- The idempotency slot decides who creates the request.
  claimed :
      String → Time → GenerationRequest → Bool × String → Exec W Grpc.Status GenerationResponse
  unfolding create_and_enqueue existing_response new_request
  claimed new_id now req (true, _) = create_and_enqueue (new_request new_id now req)
  claimed new_id now req (false, existing_id) = existing_response existing_id req.idempotency_key

  unfoldable pub request_generation :
      String → Time → GenerationRequest → Exec W Grpc.Status GenerationResponse
  unfolding claimed
  request_generation new_id now req = do
    refuse_if (req.user_id == "") (fail_with invalid_argument "user_id is required")
    refuse_if (req.holiday_id == "") (fail_with invalid_argument "holiday_id is required")
    refuse_if (req.budget_band == "") (fail_with invalid_argument "budget_band is required")
    refuse_if (req.idempotency_key == "") (fail_with invalid_argument "idempotency_key is required")
    claim ←
        try_exec (λ _. fail_with internal "idempotency check failed")
          (s.cache.set_idempotency_if_absent req.idempotency_key new_id s.cfg.idempotency_ttl)
    claimed new_id now req claim

  -- The status that the cache holds, else the repository's.
  cached_status : Request → Result GoError StatusInfo → StatusResponse
  cached_status r (ok info) = record {
    status = status_to_proto info.status;
    progress = u32 info.progress;
  }
  cached_status r (err _) = record { status = status_to_proto r.status; progress = 0 }

  unfoldable pub get_generation_status : String → String → Exec W Grpc.Status StatusResponse
  unfolding require_owner cached_status
  get_generation_status caller request_id = do
    refuse_if (request_id == "") (fail_with invalid_argument "request_id is required")
    r ← try_read (λ _. fail_with Grpc.not_found "request not found") (s.repo.get_request request_id)
    require_owner caller r.user_id
    λ w. (ok (cached_status r (s.cache.get_status request_id w)), w)

  unfoldable pub get_ideas : String → String → Exec W Grpc.Status (List IdeaMessage)
  unfolding require_owner
  get_ideas caller request_id = do
    refuse_if (request_id == "") (fail_with invalid_argument "request_id is required")
    r ← try_read (λ _. fail_with Grpc.not_found "request not found") (s.repo.get_request request_id)
    require_owner caller r.user_id
    ideas ← try_read (λ _. fail_with internal "load ideas failed") (s.repo.get_ideas request_id)
    pure (map idea_to_proto ideas)

  unfoldable pub save_idea : String → String → String → Exec W Grpc.Status Bool
  unfolding require_owner
  save_idea caller user_id idea_id = do
    refuse_if (user_id == "" || idea_id == "")
        (fail_with invalid_argument "user_id and idea_id are required")
    require_owner caller user_id
    idea ← try_read (λ _. fail_with Grpc.not_found "idea not found") (s.repo.get_idea idea_id)
    owner ←
        try_read (λ _. fail_with Grpc.not_found "idea's request not found")
          (s.repo.get_request idea.request_id)
    refuse_if (not (owner.user_id == user_id))
        (fail_with permission_denied "idea does not belong to caller")
    try_call (λ _. fail_with internal "save idea failed")
        (s.repo.save_idea_for_user user_id idea_id)
    pure true

  unfoldable pub refine : String → String → String → Exec W Grpc.Status GenerationResponse
  unfolding require_owner
  refine caller request_id refinement = do
    refuse_if (request_id == "" || refinement == "")
        (fail_with invalid_argument "request_id and refinement are required")
    r ← try_read (λ _. fail_with Grpc.not_found "request not found") (s.repo.get_request request_id)
    require_owner caller r.user_id
    try_call (λ _. fail_with internal "mark refinement failed")
        (s.repo.mark_refinement r.id refinement)
    ignore (s.cache.set_status r.id queued_info s.cfg.status_ttl)
    try_call (λ _. fail_with internal "enqueue refine job failed")
        (s.publisher.publish_generation_requested (record { request_id = r.id; tier = r.tier }))
    pure (record { request_id = r.id; status = generation_queued })

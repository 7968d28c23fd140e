-- ===== src/Surprise/Server/Validation.antt =====
-- Which requests RequestGeneration refuses before it touches any state.
use perfect_gift.Prelude.{
  String, Bool, true, false, not, ◌&&◌, ◌≡◌, ◌↔◌, Result, err, arith, ◌==◌, if◌then◌else◌, inl, inr,
  Bool-cases, ap, ok, continue, map_err,
}
use perfect_gift.Grpc
use perfect_gift.Grpc.{fail_with, invalid_argument, internal}
use perfect_gift.Surprise.Types.{Time, GoError}
use perfect_gift.Surprise.Messages.{GenerationRequest}
use perfect_gift.Surprise.Server.{
  Server, request_generation, claimed, create_and_enqueue, after_create, enqueue_new,
  existing_response,
}

unfoldable pub is_complete : GenerationRequest → Bool
is_complete req =
    not (req.user_id == "")
    && (not (req.holiday_id == "")
        && (not (req.budget_band == "") && not (req.idempotency_key == "")))

-- What is said of an incomplete request: the first field that is missing.
pub complaint : GenerationRequest → String
complaint req =
    if req.user_id == ""
    then "user_id is required"
    else if req.holiday_id == ""
    then "holiday_id is required"
    else if req.budget_band == ""
    then "budget_band is required"
    else "idempotency_key is required"

abbrev pub IsInvalid : {A : Type 0} → Result Grpc.Status A → Type 0
IsInvalid r = (m : String) × (r ≡ err (fail_with invalid_argument m))

module _ {W : Type 0} (s : Server W) (new_id : String) (now : Time) (req : GenerationRequest) where
  pub incomplete_refused :
      (w : W)
      → is_complete req ≡ false
      → request_generation s new_id now req w
        ≡ (err (fail_with invalid_argument (complaint req)), w)
  unfolding request_generation is_complete complaint
  incomplete_refused w h = ground arith

  claimed_valid : (claim : Bool × String) (w : W) → ¬ IsInvalid (claimed s new_id now req claim w).0
  unfolding claimed create_and_enqueue after_create enqueue_new existing_response
  claimed_valid (true, id) w h = ground arith
  claimed_valid (false, id) w h = ground arith

  answered_valid :
      (claim : Result GoError (Bool × String)) (w : W)
      → ¬ IsInvalid
          (continue
            (map_err (λ _. fail_with internal "idempotency check failed") claim)
            (claimed s new_id now req)
            w).0
  answered_valid (ok claim) w h = claimed_valid claim w h
  answered_valid (err e) w h = ground arith

  complete_valid :
      (w : W) → is_complete req ≡ true → ¬ IsInvalid (request_generation s new_id now req w).0
  unfolding request_generation is_complete
  complete_valid w h e = ground (
    arith,
    answered_valid
        (s.cache.set_idempotency_if_absent req.idempotency_key new_id s.cfg.idempotency_ttl w).0
        (s.cache.set_idempotency_if_absent req.idempotency_key new_id s.cfg.idempotency_ttl w).1,
  )

  -- RequestGeneration answers InvalidArgument exactly when one of user_id, holiday_id, budget_band
  -- and idempotency_key is empty.
  pub request_generation-IsInvalid :
      (w : W) → IsInvalid (request_generation s new_id now req w).0 ↔ (is_complete req ≡ false)
  request_generation-IsInvalid w = (
    λ bad. elim (Bool-cases (is_complete req)) [
      | inl full ↦ absurd (complete_valid w full bad)
      | inr missing ↦ missing
    ],
    λ missing. (complaint req, ap (λ r. r.0) (incomplete_refused w missing)),
  )

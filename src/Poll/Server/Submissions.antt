-- ===== src/Poll/Server/Submissions.antt =====
-- The submission path: limits first, one answer per poll, owners only.
use perfect_gift.Prelude.{
  ℕ, String, List, ◌≡◌, ◌≢◌, some, true, false, inl, inr, ◌⊎◌, arith, eq_iff, Result, ok, err,
}
use Prim.Native.String.{◌++◌}
use perfect_gift.Grpc
use perfect_gift.Grpc.{fail_with, resource_exhausted}
use perfect_gift.Poll.Model.{Poll, Answer}
use perfect_gift.Poll.Ports.{not_found, LinkedPoll}
use perfect_gift.Poll.Server.{
  Server, Context, gone, fetchable, subject_from, get_poll_by_token, submit_response, get_responses,
  lookup_failed, client_ip,
}

abbrev pub exhausted : {A : Type 0} → Result Grpc.Status A
exhausted = err (fail_with resource_exhausted "rate limit exceeded")

module _ {W : Type 0} (s : Server W) where
  -- A submission under a token that is not empty, which the token's budget refuses, or admits and
  -- the client's refuses, is answered ResourceExhausted, and only the limiter has been asked: the
  -- state is the one that it left.
  pub submit_limited :
      (ctx : Context) (now at : ℕ) (raw : String) (answers : List Answer) (w : W)
      → raw ≢ ""
      → let by_token =
          s.limiter.allow
            ("rl:submit:token:" ++ s.sha256_hex raw)
            s.tune.per_token_budget
            s.tune.per_token_window in
        let by_ip =
          s.limiter.allow
            ("rl:submit:ip:" ++ client_ip ctx)
            s.tune.per_ip_budget
            s.tune.per_ip_window in
        ((by_token w).0 ≡ ok false)
          ⊎ (((by_token w).0 ≡ ok true) × ((by_ip (by_token w).1).0 ≡ ok false))
        → (submit_response s ctx now at raw answers w ≡ (exhausted, (by_token w).1))
          ⊎ (submit_response s ctx now at raw answers w ≡ (exhausted, (by_ip (by_token w).1).1))
  unfolding submit_response
  submit_limited ctx now at raw answers w named (inl e) = inl (ground (arith, eq_iff raw ""))
  submit_limited ctx now at raw answers w named (inr e) = inr (ground (arith, eq_iff raw ""))

  -- Anonymous readers cannot tell a token that nobody has from a link that is revoked, expired or
  -- used up: for a token that is not empty, within the limits, both get the same NotFound, and
  -- nothing changes after the limiter.
  pub get_poll_by_token_uniform :
      (ctx : Context) (now : ℕ) (raw : String) (w w' : W)
      → raw ≢ ""
      → s.limiter.allow
          ("rl:fetch:ip:" ++ client_ip ctx)
          s.tune.per_ip_budget
          s.tune.per_ip_window
          w
        ≡ (ok true, w')
      → (s.repo.get_by_token_hash (s.sha256_hex raw) w' ≡ err not_found)
        ⊎ ((lp : LinkedPoll) × (s.repo.get_by_token_hash (s.sha256_hex raw) w' ≡ ok lp)
            × (fetchable now lp ≡ false))
      → get_poll_by_token s ctx now raw w ≡ (err gone, w')
  unfolding get_poll_by_token lookup_failed
  get_poll_by_token_uniform ctx now raw w w' named allowed (inl e) = ground (arith, eq_iff raw "")
  get_poll_by_token_uniform ctx now raw w w' named allowed (inr (lp, e, f)) =
      ground (arith, eq_iff raw "")

  -- A signed-in caller who does not own a poll gets from GetResponses, for a poll id that is not
  -- empty, what a caller gets for a poll that is missing, and the state is unchanged.
  pub get_responses_foreign :
      (ctx : Context) (owner poll_id : String) (w : W)
      → subject_from ctx ≡ some owner
      → poll_id ≢ ""
      → (s.repo.get_poll_by_id poll_id w ≡ err not_found)
        ⊎ ((p : Poll) × (s.repo.get_poll_by_id poll_id w ≡ ok p) × (p.owner_user_id ≢ owner))
      → get_responses s ctx poll_id w ≡ (err gone, w)
  unfolding get_responses lookup_failed
  get_responses_foreign ctx owner poll_id w signed named (inl e) = ground (arith, eq_iff poll_id "")
  get_responses_foreign ctx owner poll_id w signed named (inr (p, e, f)) =
      ground (arith, eq_iff poll_id "", eq_iff p.owner_user_id owner)

-- ===== src/Identity/Server.antt =====
-- services/backend/identity/internal/app/identity_server.go, over any accounts, sessions, limiter,
-- provider, passwords and tokens. The readings of the clock, the new session ids and the drawn
-- secrets (which may be missing) are arguments. SHA-256 in hexadecimal, strings.ToLower,
-- strings.EqualFold and time.RFC3339 are parameters. Comparing in constant time is comparing.
pub mod Refreshing
pub mod SigningIn
pub mod Linking
use Prim.Native.String.{◌++◌}
use perfect_gift.Prelude.{
  ℕ, ◌+◌, String, Bool, true, false, not, ◌&&◌, ◌||◌, Option, none, some, List, [], ◌∷◌, Result, ok,
  err, map, Exec, Call, pure, raise, refuse_if, try_read, try_exec, try_call, ignore, ◌>>=◌, ◌>>◌,
  ltb, eqb, ◌==◌, if◌then◌else◌, trim_space, take_text, drop_text,
}
use perfect_gift.Grpc
use perfect_gift.Grpc.{
  fail_with, invalid_argument, unauthenticated, resource_exhausted, internal, Metadata,
  first_header,
}
use perfect_gift.Identity.Types.{
  User, Session, IdError, External, Claims, Jwk, Users, SessionStore, RateLimiter, TokenService,
}
use perfect_gift.Identity.RefreshText.{split_refresh}
use perfect_gift.Identity.Messages.{
  Provider, google, apple, email, unspecified, SignInRequest, UserMessage, TokenPair,
  SignInResponse, Validity, Draw,
}

-- internal/password: Hash draws a salt; Verify answers an error for a malformed hash.
pub record Passwords (W : Type 0) : Type 0 where
  pub hash : String → W → Result IdError String
  pub verify : String → String → Result IdError Bool

pub record Server (W : Type 0) : Type 0 where
  pub users : Users W
  pub sessions : SessionStore W
  pub limiter : RateLimiter W
  pub verify_id_token : String → String → W → Result IdError External
  pub tokens : TokenService W
  pub passwords : Passwords W
  pub refresh_ttl : ℕ
  pub sha256_hex : String → String
  pub to_lower : String → String
  pub rfc3339 : ℕ → String
  pub equal_fold : String → String → Bool

-- The header behind its "Bearer ", in any case, with something behind it; else the whole header.
bearer : (String → String → Bool) → String → String
unfolding take_text drop_text
bearer equal_fold h =
    if not (drop_text 7 h == "") && equal_fold (take_text 7 h) "Bearer " then drop_text 7 h else h

-- bearerFromContext
unfoldable pub bearer_from_context : (String → String → Bool) → Option Metadata → String
unfolding first_header bearer
bearer_from_context equal_fold none = ""
bearer_from_context equal_fold (some md) = bearer equal_fold (first_header md "authorization")

abbrev pub invalid_credentials : Grpc.Status
invalid_credentials = fail_with unauthenticated "invalid credentials"

abbrev pub invalid_refresh : Grpc.Status
invalid_refresh = fail_with unauthenticated "invalid refresh token"

abbrev pub reuse_detected : Grpc.Status
reuse_detected = fail_with unauthenticated "refresh token reuse detected"

abbrev pub session_expired : Grpc.Status
session_expired = fail_with unauthenticated "session expired"

-- `if x is missing { return nil, e }`
require : {W A : Type 0} → Grpc.Status → Option A → Exec W Grpc.Status A
require e none = raise e
require e (some a) = pure a

-- `match, err := ...; if err != nil || !match`
matches : Result IdError Bool → Bool
matches (ok b) = b
matches (err _) = false

unfoldable pub provider_name : Provider → String
provider_name apple = "apple"
provider_name _ = "google"

module _ {W : Type 0} (s : Server W) where
  -- The zero time is printed as no text.
  unfoldable pub to_proto_user : User → UserMessage
  to_proto_user u = record {
    id = u.id;
    email = u.email;
    display_name = u.display_name;
    status = u.status;
    created_at = if eqb u.created_at 0 then "" else s.rfc3339 u.created_at;
  }

  -- issuePair
  unfoldable pub issue_pair : Draw → User → String → Exec W Grpc.Status TokenPair
  unfolding require
  issue_pair draw user device = do
    secret ← require (fail_with internal "could not create session") draw.secret
    try_call (λ _. fail_with internal "could not create session")
        (s.sessions.create (record {
          id = draw.session_id;
          user_id = user.id;
          refresh_hash = s.sha256_hex secret;
          device = device;
          issued_at = draw.now;
          expires_at = draw.now + s.refresh_ttl;
        }))
    issued ←
        try_read (λ _. fail_with internal "could not issue token")
          (s.tokens.issue user.id draw.session_id)
    pure (record {
      access = issued.0;
      refresh = draw.session_id ++ "." ++ secret;
      expires_in = issued.1;
    })

  -- The end of both sign-ins.
  unfoldable pub signed_in : Draw → String → User → Exec W Grpc.Status SignInResponse
  unfolding issue_pair to_proto_user
  signed_in draw device user = do
    tokens ← issue_pair draw user device
    pure (record { tokens = tokens; user = to_proto_user user })

  -- signInSocial
  unfoldable pub sign_in_social : Draw → SignInRequest → Exec W Grpc.Status SignInResponse
  unfolding signed_in provider_name
  sign_in_social draw req = do
    refuse_if (req.id_token == "")
        (fail_with invalid_argument "id_token is required for social sign-in")
    ext ←
        try_read (λ _. fail_with unauthenticated "invalid id token")
          (s.verify_id_token (provider_name req.provider) req.id_token)
    user ←
        try_exec (λ _. fail_with internal "could not resolve account")
          (s.users.upsert_oauth_user (provider_name req.provider) ext.subject ext.email
            req.display_name)
    signed_in draw req.device user

  -- The branches of signInEmail: an address without an account is registered.
  email_user : String → SignInRequest → Option User → Exec W Grpc.Status User
  unfolding require matches
  email_user address req none = do
    hash ←
        try_read (λ _. fail_with internal "could not create account")
          (s.passwords.hash req.password)
    try_exec (λ _. fail_with internal "could not create account")
        (s.users.create_email_user address req.display_name hash)
  email_user address req (some user) = do
    stored ← try_read (λ _. fail_with internal "lookup failed") (s.users.get_password_hash user.id)
    hash ← require invalid_credentials stored
    refuse_if (not (matches (s.passwords.verify req.password hash))) invalid_credentials
    pure user

  -- signInEmail
  unfoldable pub sign_in_email : Draw → SignInRequest → Exec W Grpc.Status SignInResponse
  unfolding email_user signed_in trim_space
  sign_in_email draw req = do
    refuse_if (trim_space req.email == "" || req.password == "")
        (fail_with invalid_argument "email and password are required")
    allowed ←
        try_exec (λ _. fail_with internal "rate limiter unavailable")
          (s.limiter.allow ("signin:" ++ s.to_lower (trim_space req.email)))
    refuse_if (not allowed) (fail_with resource_exhausted "too many attempts, try again later")
    found ←
        try_read (λ _. fail_with internal "lookup failed")
          (s.users.get_by_email (trim_space req.email))
    user ← email_user (trim_space req.email) req found
    signed_in draw req.device user

  -- SignIn
  unfoldable pub sign_in : Draw → SignInRequest → Exec W Grpc.Status SignInResponse
  unfolding sign_in_social sign_in_email
  sign_in draw req = elim req.provider [
    | google ↦ sign_in_social draw req
    | apple ↦ sign_in_social draw req
    | email ↦ sign_in_email draw req
    | unspecified ↦ raise (fail_with invalid_argument "unsupported provider")
  ]

  -- The new secret in the place of the old one, and a new access token.
  rotated : ℕ → Option String → String → Session → Exec W Grpc.Status TokenPair
  unfolding require
  rotated at new_secret sid sess = do
    secret ← require (fail_with internal "could not rotate token") new_secret
    try_call (λ _. fail_with internal "could not rotate token")
        (s.sessions.update (record sess { refresh_hash = s.sha256_hex secret; issued_at = at }))
    issued ←
        try_read (λ _. fail_with internal "could not issue token") (s.tokens.issue sess.user_id sid)
    pure (record { access = issued.0; refresh = sid ++ "." ++ secret; expires_in = issued.1 })

  -- The session is deleted, whether that succeeds or not, where the secret is stale or the time is
  -- past the expiry.
  refresh_found : ℕ → ℕ → Option String → String → String → Session → Exec W Grpc.Status TokenPair
  unfolding rotated
  refresh_found now at new_secret sid secret sess w =
      if not (s.sha256_hex secret == sess.refresh_hash)
      then (err reuse_detected, (s.sessions.delete sid w).1)
      else if ltb sess.expires_at now
      then (err session_expired, (s.sessions.delete sid w).1)
      else rotated at new_secret sid sess w

  -- RefreshToken; the clock is read for the expiry and again for the session.
  unfoldable pub refresh_token : ℕ → ℕ → Option String → String → Exec W Grpc.Status TokenPair
  unfolding refresh_found require
  refresh_token now at new_secret raw = do
    parts ← require invalid_refresh (split_refresh raw)
    found ← try_read (λ _. fail_with internal "session lookup failed") (s.sessions.get parts.0)
    sess ← require invalid_refresh found
    refresh_found now at new_secret parts.0 parts.1 sess

  -- Revoke, by session id or by refresh token.
  unfoldable pub revoke : String → String → Exec W Grpc.Status (Unit {0})
  unfolding require
  revoke session_id refresh =
      if not (session_id == "")
      then try_call (λ _. fail_with internal "revoke failed") (s.sessions.delete session_id)
      else if not (refresh == "")
      then (do
        parts ←
            require (fail_with invalid_argument "malformed refresh token") (split_refresh refresh)
        try_call (λ _. fail_with internal "revoke failed") (s.sessions.delete parts.0))
      else raise (fail_with invalid_argument "provide refresh_token or session_id")

  -- GetMe
  unfoldable pub get_me : Option Metadata → Exec W Grpc.Status UserMessage
  unfolding bearer_from_context to_proto_user
  get_me md = do
    let raw = bearer_from_context s.equal_fold md
    refuse_if (raw == "") (fail_with unauthenticated "missing bearer token")
    claims ← try_read (λ _. fail_with unauthenticated "invalid token") (s.tokens.verify raw)
    user ←
        try_read (λ _. fail_with unauthenticated "unknown subject")
          (s.users.get_by_id claims.subject)
    pure (to_proto_user user)

  -- ValidateToken: an invalid token is an answer, not an error.
  unfoldable pub validate_token : String → W → Validity
  validate_token raw w = elim (s.tokens.verify raw w) [
    | ok c ↦ record { valid = true; subject = c.subject; claims = some c }
    | err _ ↦ record { valid = false; subject = ""; claims = none }
  ]

  -- GetJWKS copies the fields of each key.
  unfoldable pub get_jwks : W → List Jwk
  get_jwks w = s.tokens.jwks w

-- ===== src/Identity/Tokens.antt =====
-- services/backend/identity/internal/token/token.go: the signing keys and their rotation. A new
-- key pair and a random token id are arguments that may be missing; signing, and the parsing that
-- ParseWithClaims does around the key function, are the JWT library's, so parameters. Times are
-- nanoseconds since year 1; a token carries whole seconds.
pub mod Rotation
use perfect_gift.Prelude.{
  Bool, ℕ, ◌+◌, ◌*◌, ◌/◌, String, List, [], ◌∷◌, Option, none, some, Result, ok, err, Call, ◌==◌,
  if◌then◌else◌,
}
use perfect_gift.Identity.Types.{Claims, Jwk, IdError, failure}

pub record KeyPair : Type 0 where
  pub kid : String
  pub priv : String
  pub public : String

-- NewManager makes the current key; a previous one is there after the first rotation.
pub record Manager : Type 0 where
  pub current : KeyPair
  pub previous : Option KeyPair
  pub issuer : String
  pub audience : String
  pub ttl : ℕ

abbrev pub second : ℕ
second = 1_000_000_000

unfoldable pub new_manager : KeyPair → String → String → ℕ → Manager
new_manager kp issuer audience ttl = record {
  current = kp;
  previous = none;
  issuer = issuer;
  audience = audience;
  ttl = ttl;
}

-- jwt.NewNumericDate
abbrev pub whole_seconds : ℕ → ℕ
whole_seconds t = t / second * second

-- jwtClaims: the session, and what of jwt.RegisteredClaims the code uses.
pub record JwtClaims : Type 0 where
  pub sid : String
  pub subject : String
  pub issuer : String
  pub audience : List String
  pub issued_at : Option ℕ
  pub expires_at : Option ℕ
  pub id : String

-- What the key function sees of a token: whether its method is *jwt.SigningMethodEd25519, and the
-- text of its "kid", if it has one.
pub record TokenHeader : Type 0 where
  pub is_ed25519 : Bool
  pub kid : Option String

-- The key function and the options of ParseWithClaims: the methods it takes, the issuer, the
-- audience and the time. It wants an expiry.
pub record ParseOptions : Type 0 where
  pub key_for : TokenHeader → Result IdError String
  pub valid_methods : List String
  pub issuer : String
  pub audience : String
  pub now : ℕ

pub record Parsed : Type 0 where
  pub claims : JwtClaims
  pub valid : Bool

-- github.com/golang-jwt/jwt: signing by key id and private key, and ParseWithClaims.
pub record Jwt : Type 0 where
  pub sign : String → String → JwtClaims → Result IdError String
  pub parse : ParseOptions → String → Result IdError Parsed

unfoldable pub claims_for : Manager → String → String → ℕ → String → JwtClaims
claims_for m subject session_id now jti = record {
  sid = session_id;
  subject = subject;
  issuer = m.issuer;
  audience = m.audience ∷ [];
  issued_at = some (whole_seconds now);
  expires_at = some (whole_seconds (now + m.ttl));
  id = jti;
}

signed_for : ℕ → Result IdError String → Result IdError (String × ℕ)
signed_for ttl (ok signed) = ok (signed, ttl / second)
signed_for ttl (err (failure e)) = err (failure e)

-- Issue
unfoldable pub issue :
    Jwt → Manager → Option String → ℕ → String → String → Result IdError (String × ℕ)
unfolding signed_for claims_for
issue jwt m none now subject session_id = err (failure "no randomness")
issue jwt m (some jti) now subject session_id =
    signed_for m.ttl
      (jwt.sign m.current.kid m.current.priv (claims_for m subject session_id now jti))

previous_by_kid : Option KeyPair → String → Option String
previous_by_kid none kid = none
previous_by_kid (some kp) kid = if kp.kid == kid then some kp.public else none

unfoldable pub public_key_by_kid : Manager → String → Option String
unfolding previous_by_kid
public_key_by_kid m kid =
    if m.current.kid == kid then some m.current.public else previous_by_kid m.previous kid

or_empty : Option String → String
or_empty none = ""
or_empty (some s) = s

known_key : Option String → Result IdError String
known_key none = err (failure "unknown key id")
known_key (some public) = ok public

-- The key function of Verify.
unfoldable pub key_function : Manager → TokenHeader → Result IdError String
unfolding known_key public_key_by_kid or_empty
key_function m h =
    if h.is_ed25519
    then known_key (public_key_by_kid m (or_empty h.kid))
    else err (failure "unexpected signing method")

first_or_empty : List String → String
first_or_empty [] = ""
first_or_empty (a ∷ rest) = a

-- Go's zero time is the start of year 1.
time_or_zero : Option ℕ → ℕ
time_or_zero none = 0
time_or_zero (some t) = t

unfoldable pub to_claims : JwtClaims → Claims
unfolding first_or_empty time_or_zero
to_claims c = record {
  subject = c.subject;
  session_id = c.sid;
  issuer = c.issuer;
  audience = first_or_empty c.audience;
  issued_at = time_or_zero c.issued_at;
  expires_at = time_or_zero c.expires_at;
  jti = c.id;
}

parsed_claims : Result IdError Parsed → Result IdError Claims
unfolding to_claims
parsed_claims (err e) = err e
parsed_claims (ok p) = if p.valid then ok (to_claims p.claims) else err (failure "invalid token")

-- Verify
unfoldable pub verify : Jwt → Manager → ℕ → String → Result IdError Claims
unfolding parsed_claims key_function
verify jwt m now raw = parsed_claims (
    jwt.parse
      (record {
        key_for = key_function m;
        valid_methods = "EdDSA" ∷ [];
        issuer = m.issuer;
        audience = m.audience;
        now = now;
      })
      raw)

-- jwkFor; `encode` is base64url without padding.
unfoldable pub jwk_for : (String → String) → KeyPair → Jwk
jwk_for encode kp = record {
  kty = "OKP";
  crv = "Ed25519";
  x = encode kp.public;
  kid = kp.kid;
  use_for = "sig";
  alg = "EdDSA";
}

previous_jwk : (String → String) → Option KeyPair → List Jwk
unfolding jwk_for
previous_jwk encode none = []
previous_jwk encode (some kp) = jwk_for encode kp ∷ []

-- JWKS
unfoldable pub jwks : (String → String) → Manager → List Jwk
unfolding jwk_for previous_jwk
jwks encode m = jwk_for encode m.current ∷ previous_jwk encode m.previous

-- Rotate
unfoldable pub rotate : Option KeyPair → Call Manager IdError
rotate none m = (some (failure "generate ed25519 key"), m)
rotate (some kp) m = (none, record m { current = kp; previous = some m.current })

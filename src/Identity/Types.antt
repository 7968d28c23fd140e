-- ===== src/Identity/Types.antt =====
-- services/backend/identity/internal/model/model.go, the claims of internal/token/token.go, the
-- identity of internal/oauth/oauth.go, and the interfaces of internal/app/identity_server.go over a
-- state W. A read changes nothing.
use perfect_gift.Prelude.{ℕ, String, Bool, Option, Result, Exec, Call, List}

-- Times are nanoseconds since year 1.
pub record User : Type 0 where
  pub id : String
  pub email : String
  pub display_name : String
  pub status : String
  pub created_at : ℕ

pub record Session : Type 0 where
  pub id : String
  pub user_id : String
  pub refresh_hash : String
  pub device : String
  pub issued_at : ℕ
  pub expires_at : ℕ

-- Go's `error` values, with their texts.
pub data IdError : Type 0 where
  failure : String → IdError

-- oauth.Identity
pub record External : Type 0 where
  pub provider : String
  pub subject : String
  pub email : String
  pub email_verified : Bool

pub record Claims : Type 0 where
  pub subject : String
  pub session_id : String
  pub issuer : String
  pub audience : String
  pub issued_at : ℕ
  pub expires_at : ℕ
  pub jti : String

pub record Jwk : Type 0 where
  pub kty : String
  pub crv : String
  pub x : String
  pub kid : String
  pub use_for : String
  pub alg : String

-- Users; `none` stands for ok=false.
pub record Users (W : Type 0) : Type 0 where
  pub upsert_oauth_user : String → String → String → String → Exec W IdError User
  pub get_by_id : String → W → Result IdError User
  pub get_by_email : String → W → Result IdError (Option User)
  pub create_email_user : String → String → String → Exec W IdError User
  pub get_password_hash : String → W → Result IdError (Option String)

-- Sessions
pub record SessionStore (W : Type 0) : Type 0 where
  pub create : Session → Call W IdError
  pub get : String → W → Result IdError (Option Session)
  pub update : Session → Call W IdError
  pub delete : String → Call W IdError

-- RateLimiter
pub record RateLimiter (W : Type 0) : Type 0 where
  pub allow : String → Exec W IdError Bool

-- token.Manager as the server uses it: Issue answers the token and its lifetime in seconds.
pub record TokenService (W : Type 0) : Type 0 where
  pub issue : String → String → W → Result IdError (String × ℕ)
  pub verify : String → W → Result IdError Claims
  pub jwks : W → List Jwk

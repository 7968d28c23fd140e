-- ===== src/Gateway/Auth.antt =====
-- services/backend/api-gateway/internal/auth/verifier.go: access tokens are verified against a
-- cached key set. base64url, JSON and the signature schemes are parameters (`Codec`); a byte is a
-- number. The answer of the key source and the readings of the clock, in nanoseconds since 1970,
-- are arguments.
pub mod Keys
pub mod Checks
pub mod Issued
use perfect_gift.Prelude.{ℕ, zero, suc, ◌*◌, String, List, Bool, true, false, Option, GoMap, ltb}

-- A JSON number as an int64.
pub data ℤ : Type 0 where
  pos negsuc : ℕ → ℤ

pub record Jwk : Type 0 where
  pub kty : String
  pub kid : String
  pub alg : String
  pub use_for : String
  pub n : String
  pub e : String
  pub crv : String
  pub x : String

-- crypto.PublicKey: *rsa.PublicKey or ed25519.PublicKey.
pub data PublicKey : Type 0 where
  rsa : (modulus : ℕ) (exponent : ℤ) → PublicKey
  ed25519 : List ℕ → PublicKey

-- `panic` stands for a panic of the Go runtime.
pub data AuthError : Type 0 where
  malformed_token unknown_key bad_signature expired no_keys panic : AuthError
  bad_claims : String → AuthError

pub record Claims : Type 0 where
  pub subject : String
  pub issuer : String
  pub jti : String

pub record Header : Type 0 where
  pub alg : String
  pub kid : String

-- encoding/base64, encoding/json (a json.RawMessage is its text), crypto/sha256, crypto/rsa and
-- crypto/ed25519.
pub record Codec : Type 0 where
  pub decode_base64 : String → Option (List ℕ)
  pub header_json : List ℕ → Option Header
  pub object_json : List ℕ → Option (GoMap String)
  pub number_json : String → Option ℤ
  pub string_json : String → Option String
  pub strings_json : String → Option (List String)
  pub sha256 : String → List ℕ
  pub verify_rsa : ℕ → ℤ → List ℕ → List ℕ → Bool
  pub verify_ed25519 : List ℕ → String → List ℕ → Bool

pub record Verifier : Type 0 where
  pub issuer : String
  pub audience : String
  pub ttl : ℕ
  pub keys : GoMap PublicKey
  pub fetched_at : ℕ
  pub have_keys : Bool

-- The clock in keyFor, in refreshLocked and in validateClaims.
pub record Readings : Type 0 where
  pub since : ℕ
  pub fetched : ℕ
  pub checked : ℕ

abbrev pub second : ℕ
second = 1_000_000_000

-- now.After(time.Unix(s, 0)) and now.Before of it
unfoldable pub after_unix : ℕ → ℤ → Bool
after_unix now (pos s) = ltb (s * second) now
after_unix now (negsuc s) = true

unfoldable pub before_unix : ℕ → ℤ → Bool
before_unix now (pos s) = ltb now (s * second)
before_unix now (negsuc s) = false

-- ===== src/Identity/Messages.antt =====
-- The messages of services/backend/identity/api/identity/v1/identity.proto that the server reads
-- and answers, and what a sign-in draws.
use perfect_gift.Prelude.{ℕ, String, Bool, Option}
use perfect_gift.Identity.Types.{Claims}

pub data Provider : Type 0 where
  google apple email unspecified : Provider

pub record SignInRequest : Type 0 where
  pub provider : Provider
  pub id_token : String
  pub email : String
  pub password : String
  pub display_name : String
  pub device : String

pub record UserMessage : Type 0 where
  pub id : String
  pub email : String
  pub display_name : String
  pub status : String
  pub created_at : String

pub record TokenPair : Type 0 where
  pub access : String
  pub refresh : String
  pub expires_in : ℕ

pub record SignInResponse : Type 0 where
  pub tokens : TokenPair
  pub user : UserMessage

-- The answer of ValidateToken; the claims are nil where the token is not valid.
pub record Validity : Type 0 where
  pub valid : Bool
  pub subject : String
  pub claims : Option Claims

-- The time of the call, the new session's id and the drawn secret.
pub record Draw : Type 0 where
  pub now : ℕ
  pub session_id : String
  pub secret : Option String

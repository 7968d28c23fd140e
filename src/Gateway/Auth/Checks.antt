-- ===== src/Gateway/Auth/Checks.antt =====
-- Verify of verifier.go: the parts of a token, its signature and its claims.
pub mod Accepted
pub mod Complete
use Prim.Native.String.{◌++◌}
use perfect_gift.Prelude.{
  ℕ, ◌+◌, ◌*◌, String, List, [], ◌∷◌, Bool, true, false, not, ◌&&◌, ◌||◌, Option, none, some,
  Result, ok, err, Exec, GoMap, split_on, pure, raise, ◌>>=◌, eqb, ltb, ◌==◌, if◌then◌else◌,
}
use perfect_gift.Gateway.Auth.{
  ℤ, PublicKey, rsa, ed25519, AuthError, malformed_token, bad_signature, expired, bad_claims,
  Claims, Header, Codec, Verifier, Readings, Jwk, second, after_unix, before_unix,
}
use perfect_gift.Gateway.Auth.Keys.{key_for}

-- strings.Split(s, ".")
unfoldable pub split_dots : String → List String
unfolding split_on
split_dots s = split_on b'.' s

pub record Parts : Type 0 where
  pub header : String
  pub payload : String
  pub signature : String

-- Three parts, none of them empty.
unfoldable pub three_parts : List String → Option Parts
three_parts (h ∷ p ∷ g ∷ []) =
    if h == "" || (p == "" || g == "")
    then none
    else some (record { header = h; payload = p; signature = g })
three_parts _ = none

module _ (c : Codec) where
  -- verifySignature: the algorithm of the header must fit the kind of the key.
  unfoldable pub verify_signature : String → PublicKey → String → List ℕ → Bool
  verify_signature alg (rsa n e) input sig = alg == "RS256" && c.verify_rsa n e (c.sha256 input) sig
  verify_signature alg (ed25519 x) input sig = alg == "EdDSA" && c.verify_ed25519 x input sig

  -- numericClaim and stringClaim
  unfoldable pub numeric_claim : GoMap String → String → Option ℤ
  numeric_claim raw k = elim (raw k) [ none ↦ none | some v ↦ c.number_json v ]

  text_of : Option String → String
  text_of none = ""
  text_of (some s) = s

  unfoldable pub string_claim : GoMap String → String → String
  unfolding text_of
  string_claim raw k = elim (raw k) [ none ↦ "" | some v ↦ text_of (c.string_json v) ]

  is_in : String → List String → Bool
  is_in want [] = false
  is_in want (a ∷ rest) = a == want || is_in want rest

  any_of : Option (List String) → String → Bool
  unfolding is_in
  any_of none want = false
  any_of (some many) want = is_in want many

  -- audienceContains: one text, or a list of them.
  unfoldable pub audience_contains : GoMap String → String → Bool
  unfolding any_of
  audience_contains raw want = elim (raw "aud") [
    | none ↦ false
    | some v ↦ elim (c.string_json v) [
      | some single ↦ single == want
      | none ↦ any_of (c.strings_json v) want
    ]
  ]

  -- The leeway of 30 seconds is nbf's alone.
  too_early : ℕ → Option ℤ → Bool
  unfolding before_unix
  too_early now none = false
  too_early now (some nbf) = before_unix (now + 30 * second) nbf

  -- What follows the check of exp.
  checked_claims : Verifier → ℕ → GoMap String → Result AuthError Claims
  unfolding numeric_claim string_claim audience_contains too_early
  checked_claims v now raw =
      if too_early now (numeric_claim raw "nbf")
      then err (bad_claims "token not yet valid")
      else if not (v.issuer == "") && not (string_claim raw "iss" == v.issuer)
      then err (bad_claims "issuer mismatch")
      else if not (v.audience == "") && not (audience_contains raw v.audience)
      then err (bad_claims "audience mismatch")
      else if string_claim raw "sub" == ""
      then err (bad_claims "missing sub")
      else ok (record {
        subject = string_claim raw "sub";
        issuer = string_claim raw "iss";
        jti = string_claim raw "jti";
      })

  unexpired_claims : Verifier → ℕ → GoMap String → Option ℤ → Result AuthError Claims
  unfolding checked_claims after_unix
  unexpired_claims v now raw none = err (bad_claims "missing exp")
  unexpired_claims v now raw (some exp) =
      if after_unix now exp then err expired else checked_claims v now raw

  object_claims : Verifier → ℕ → Option (GoMap String) → Result AuthError Claims
  unfolding unexpired_claims numeric_claim
  object_claims v now none = err malformed_token
  object_claims v now (some raw) = unexpired_claims v now raw (numeric_claim raw "exp")

  -- validateClaims
  unfoldable pub validate_claims : Verifier → ℕ → List ℕ → Result AuthError Claims
  unfolding object_claims
  validate_claims v now payload = object_claims v now (c.object_json payload)

  or_malformed : {A : Type 0} → Option A → Exec Verifier AuthError A
  or_malformed none = raise malformed_token
  or_malformed (some a) = pure a

  signed_or_bad : Bool → Exec Verifier AuthError (Unit {0})
  signed_or_bad true = pure tt
  signed_or_bad false = raise bad_signature

  validated : ℕ → List ℕ → Exec Verifier AuthError Claims
  unfolding validate_claims
  validated now payload v = (validate_claims v now payload, v)

  -- Behind the key: the signature, then the claims.
  under_key : ℕ → Parts → Header → PublicKey → Exec Verifier AuthError Claims
  unfolding or_malformed signed_or_bad validated verify_signature
  under_key now parts header key = do
    sig ← or_malformed (c.decode_base64 parts.signature)
    _ ← signed_or_bad (verify_signature header.alg key (parts.header ++ "." ++ parts.payload) sig)
    payload ← or_malformed (c.decode_base64 parts.payload)
    validated now payload

  -- Verify
  unfoldable pub verify : Readings → Option (List Jwk) → String → Exec Verifier AuthError Claims
  unfolding or_malformed under_key split_dots three_parts
  verify r fetched token = do
    parts ← or_malformed (three_parts (split_dots token))
    header_bytes ← or_malformed (c.decode_base64 parts.header)
    header ← or_malformed (c.header_json header_bytes)
    key ← key_for c r fetched header.kid
    under_key r.checked parts header key

-- ===== src/Gateway/Auth/Checks/Complete.antt =====
-- What is enough for a token to be accepted.
use Prim.Native.String.{◌++◌}
use perfect_gift.Prelude.{
  ◌⊎◌, inl, inr, eq_refl, ◌∷◌, ℕ, String, List, true, false, ◌≡◌, ◌≢◌, Option, none, some, ok,
  GoMap, arith, eq_iff,
}
use perfect_gift.Gateway.Auth.{
  ℤ, PublicKey, Claims, Header, Codec, Verifier, Readings, Jwk, after_unix,
}
use perfect_gift.Gateway.Auth.Keys.{key_for}
use perfect_gift.Gateway.Auth.Checks.{
  any_of, is_in, text_of, Parts, split_dots, three_parts, verify_signature, numeric_claim,
  string_claim, audience_contains, checked_claims, unexpired_claims, object_claims, validate_claims,
  verify, too_early, or_malformed, signed_or_bad, validated, under_key,
}

module _ (c : Codec) where
  -- The claims that are answered of a payload.
  abbrev pub claims_of : GoMap String → Claims
  claims_of raw = record {
    subject = string_claim c raw "sub";
    issuer = string_claim c raw "iss";
    jti = string_claim c raw "jti";
  }

  -- A claim with a text, which is left out when it is empty.
  abbrev pub IsText : GoMap String → String → String → Type 0
  IsText raw k value =
      ((value ≡ "") × (raw k ≡ none))
      ⊎ ((v : String) × (raw k ≡ some v) × (c.string_json v ≡ some value))

  pub string_claim-IsText :
      (raw : GoMap String) (k value : String) → IsText raw k value → string_claim c raw k ≡ value
  unfolding string_claim text_of
  string_claim-IsText raw k value (inl (empty, absent)) = ground arith
  string_claim-IsText raw k value (inr (v, there, read)) = ground arith

  pub numeric_claim_read :
      (raw : GoMap String) (k v : String) (n : ℤ)
      → raw k ≡ some v
      → c.number_json v ≡ some n
      → numeric_claim c raw k ≡ some n
  unfolding numeric_claim
  numeric_claim_read raw k v n there read = ground arith

  pub numeric_claim_absent :
      (raw : GoMap String) (k : String) → raw k ≡ none → numeric_claim c raw k ≡ none
  unfolding numeric_claim
  numeric_claim_absent raw k absent = ground arith

  -- A list of texts that begins with the audience contains it.
  pub audience_listed :
      (raw : GoMap String) (v want : String) (more : List String)
      → raw "aud" ≡ some v
      → c.string_json v ≡ none
      → c.strings_json v ≡ some (want ∷ more)
      → audience_contains c raw want ≡ true
  unfolding audience_contains any_of is_in
  audience_listed raw v want more there no_text read = ground (arith, eq_refl want)

  pub validate_claims-good :
      (v : Verifier) (now : ℕ) (payload : List ℕ) (raw : GoMap String) (exp : ℤ)
      → c.object_json payload ≡ some raw
      → numeric_claim c raw "exp" ≡ some exp
      → after_unix now exp ≡ false
      → numeric_claim c raw "nbf" ≡ none
      → string_claim c raw "iss" ≡ v.issuer
      → audience_contains c raw v.audience ≡ true
      → string_claim c raw "sub" ≢ ""
      → validate_claims c v now payload ≡ ok (claims_of raw)
  unfolding validate_claims object_claims unexpired_claims checked_claims too_early
  validate_claims-good v now payload raw exp read exp_read early no_nbf iss aud sub =
      ground
        (arith, eq_iff (string_claim c raw "iss") v.issuer, eq_iff (string_claim c raw "sub") "")

  under_key-good :
      (now : ℕ) (parts : Parts) (header : Header) (key : PublicKey) (sig payload : List ℕ)
      (v : Verifier) (cl : Claims)
      → c.decode_base64 parts.signature ≡ some sig
      → verify_signature c header.alg key (parts.header ++ "." ++ parts.payload) sig ≡ true
      → c.decode_base64 parts.payload ≡ some payload
      → validate_claims c v now payload ≡ ok cl
      → under_key c now parts header key v ≡ (ok cl, v)
  unfolding under_key or_malformed signed_or_bad validated
  under_key-good now parts header key sig payload v cl sig_read good payload_read claims =
      ground arith

  -- A token of three parts whose header names a key that keyFor finds, with a good signature, not
  -- expired, not too early, from the expected issuer, for the expected audience and with a
  -- subject.
  pub verify-good :
      (r : Readings) (fetched : Option (List Jwk)) (token : String) (parts : Parts)
      (header_bytes sig payload : List ℕ) (header : Header) (key : PublicKey) (raw : GoMap String)
      (v v' : Verifier)
      → three_parts (split_dots token) ≡ some parts
      → c.decode_base64 parts.header ≡ some header_bytes
      → c.header_json header_bytes ≡ some header
      → key_for c r fetched header.kid v ≡ (ok key, v')
      → c.decode_base64 parts.signature ≡ some sig
      → verify_signature c header.alg key (parts.header ++ "." ++ parts.payload) sig ≡ true
      → c.decode_base64 parts.payload ≡ some payload
      → validate_claims c v' r.checked payload ≡ ok (claims_of raw)
      → verify c r fetched token v ≡ (ok (claims_of raw), v')
  unfolding verify or_malformed
  verify-good r fetched token parts header_bytes sig payload header key raw v v' cut decoded read
        keyed sig_read good payload_read claims =
      let under =
        under_key-good r.checked parts header key sig payload v' (claims_of raw) sig_read good
          payload_read claims in
      ground arith

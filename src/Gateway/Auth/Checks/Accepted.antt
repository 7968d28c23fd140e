-- ===== src/Gateway/Auth/Checks/Accepted.antt =====
-- What an accepted token has.
use Prim.Native.String.{◌++◌}
use perfect_gift.Prelude.{
  ℕ, String, List, true, false, ◌≡◌, ◌≢◌, ◌⊎◌, ap, subst, ◌∙◌, Option, some, ok, GoMap, Bool-cases,
  Option-cases, Result-cases, inl, inr, arith, eq_iff,
}
use perfect_gift.Gateway.Auth.{
  ℤ, PublicKey, rsa, ed25519, Claims, Header, Codec, Verifier, Readings, Jwk, after_unix,
}
use perfect_gift.Gateway.Auth.Keys.{key_for}
use perfect_gift.Gateway.Auth.Keys.Cache.{key_for-ok}
use perfect_gift.Gateway.Auth.Checks.{
  Parts, split_dots, three_parts, verify_signature, numeric_claim, string_claim, audience_contains,
  checked_claims, unexpired_claims, object_claims, validate_claims, verify, or_malformed,
  signed_or_bad, validated, under_key,
}

module _ (c : Codec) where
  -- The signature checks under the key, by the scheme of the key's own kind.
  abbrev pub Signs : String → PublicKey → String → List ℕ → Type 0
  Signs alg (rsa n e) input sig = (alg ≡ "RS256") × (c.verify_rsa n e (c.sha256 input) sig ≡ true)
  Signs alg (ed25519 x) input sig = (alg ≡ "EdDSA") × (c.verify_ed25519 x input sig ≡ true)

  verify_signature-Signs :
      (alg : String) (key : PublicKey) (input : String) (sig : List ℕ)
      → verify_signature c alg key input sig ≡ true
      → Signs alg key input sig
  unfolding verify_signature
  verify_signature-Signs alg (rsa n e) input sig h =
      (ground (arith, eq_iff alg "RS256"), ground arith)
  verify_signature-Signs alg (ed25519 x) input sig h =
      (ground (arith, eq_iff alg "EdDSA"), ground arith)

  -- The claims of a payload that are checked: it has not expired, the issuer and the audience are
  -- the expected ones where they are configured, and the subject is not empty.
  abbrev pub HasClaims : String → String → ℕ → Claims → List ℕ → Type 0
  HasClaims want_issuer want_audience now cl payload =
      (raw : GoMap String) × (exp : ℤ) × (c.object_json payload ≡ some raw)
      × (numeric_claim c raw "exp" ≡ some exp)
      × (after_unix now exp ≡ false)
      × ((want_issuer ≡ "") ⊎ (string_claim c raw "iss" ≡ want_issuer))
      × ((want_audience ≡ "") ⊎ (audience_contains c raw want_audience ≡ true))
      × (cl.subject ≡ string_claim c raw "sub")
      × (cl.subject ≢ "")

  checked_claims-ok :
      (v : Verifier) (now : ℕ) (raw : GoMap String) (cl : Claims)
      → checked_claims c v now raw ≡ ok cl
      → ((v.issuer ≡ "") ⊎ (string_claim c raw "iss" ≡ v.issuer))
        × ((v.audience ≡ "") ⊎ (audience_contains c raw v.audience ≡ true))
        × (cl.subject ≡ string_claim c raw "sub")
        × (cl.subject ≢ "")
  unfolding checked_claims
  checked_claims-ok v now raw cl h = (
    ground (arith, eq_iff v.issuer "", eq_iff (string_claim c raw "iss") v.issuer),
    ground (arith, eq_iff v.audience ""),
    ground arith,
    ground (arith, eq_iff (string_claim c raw "sub") ""),
  )

  validate_claims-ok :
      (v : Verifier) (now : ℕ) (payload : List ℕ) (cl : Claims)
      → validate_claims c v now payload ≡ ok cl
      → HasClaims v.issuer v.audience now cl payload
  unfolding validate_claims object_claims unexpired_claims
  validate_claims-ok v now payload cl h = elim (Option-cases (c.object_json payload)) [
    | inl bad ↦ absurd (ground arith)
    | inr (raw, read) ↦ elim (Option-cases (numeric_claim c raw "exp")) [
      | inl missing ↦ absurd (ground arith)
      | inr (exp, here) ↦ elim (Bool-cases (after_unix now exp)) [
        | inl late ↦ absurd (ground arith)
        | inr early ↦
            let (issuer, audience, subject, some_subject) =
              checked_claims-ok v now raw cl (ground arith) in
            (raw, exp, read, here, early, issuer, audience, subject, some_subject)
      ]
    ]
  ]

  -- The token is signed: its three parts are not empty, its header names a key of the cache, and
  -- the signature over the first two parts checks under that key by the scheme of the key's kind.
  abbrev pub IsSigned : Verifier → Parts → Type 0
  IsSigned v parts =
      (header : Header) × (key : PublicKey) × (header_bytes : List ℕ) × (sig : List ℕ)
      × (c.decode_base64 parts.header ≡ some header_bytes)
      × (c.header_json header_bytes ≡ some header)
      × (v.keys header.kid ≡ some key)
      × (c.decode_base64 parts.signature ≡ some sig)
      × Signs header.alg key (parts.header ++ "." ++ parts.payload) sig

  abbrev IsUnder : Parts → Header → PublicKey → Type 0
  IsUnder parts header key =
      (sig : List ℕ) × (c.decode_base64 parts.signature ≡ some sig)
      × Signs header.alg key (parts.header ++ "." ++ parts.payload) sig

  under_key-ok :
      (now : ℕ) (parts : Parts) (header : Header) (key : PublicKey) (v v' : Verifier) (cl : Claims)
      → under_key c now parts header key v ≡ (ok cl, v')
      → (v' ≡ v)
        × IsUnder parts header key
        × ((payload : List ℕ) × (c.decode_base64 parts.payload ≡ some payload)
            × HasClaims v.issuer v.audience now cl payload)
  unfolding under_key or_malformed signed_or_bad validated
  under_key-ok now parts header key v v' cl h =
      elim (Option-cases (c.decode_base64 parts.signature)) [
        | inl bad ↦ absurd (ground arith)
        | inr (sig, decoded) ↦
            let input = parts.header ++ "." ++ parts.payload in
            elim (Bool-cases (verify_signature c header.alg key input sig)) [
              | inr bad ↦ absurd (ground arith)
              | inl good ↦ elim (Option-cases (c.decode_base64 parts.payload)) [
                | inl bad ↦ absurd (ground arith)
                | inr (payload, read) ↦ (
                  ground arith,
                  (sig, decoded, verify_signature-Signs header.alg key input sig good),
                  (payload, read, validate_claims-ok v now payload cl (ground arith)),
                )
              ]
            ]
      ]

  -- What Verify promises of a token that it accepts.
  abbrev pub IsAccepted : Verifier → Verifier → ℕ → String → Claims → Type 0
  IsAccepted v v' now token cl =
      (parts : Parts) × (payload : List ℕ) × (three_parts (split_dots token) ≡ some parts)
      × IsSigned v' parts
      × (c.decode_base64 parts.payload ≡ some payload)
      × HasClaims v.issuer v.audience now cl payload

  under_key-IsAccepted :
      (now : ℕ) (token : String) (parts : Parts) (header_bytes : List ℕ) (header : Header)
      (key : PublicKey) (v w v' : Verifier) (cl : Claims)
      → three_parts (split_dots token) ≡ some parts
      → c.decode_base64 parts.header ≡ some header_bytes
      → c.header_json header_bytes ≡ some header
      → (w.keys header.kid ≡ some key) × (w.issuer ≡ v.issuer) × (w.audience ≡ v.audience)
      → under_key c now parts header key w ≡ (ok cl, v')
      → IsAccepted v v' now token cl
  under_key-IsAccepted now token parts header_bytes header key v w v' cl cut decoded read
        (held, issuer, audience) h =
      let (same, (sig, sig_read, signs), (payload, payload_read, claims)) =
        under_key-ok now parts header key w v' cl h in
      (
        parts,
        payload,
        cut,
        (
          header,
          key,
          header_bytes,
          sig,
          decoded,
          read,
          ap (λ u. u.keys header.kid) same ∙ held,
          sig_read,
          signs,
        ),
        payload_read,
        subst (λ i. HasClaims i v.audience now cl payload) issuer
            (subst (λ a. HasClaims w.issuer a now cl payload) audience claims),
      )

  -- Verify accepts only what is signed and what it claims: where it answers claims, the token has
  -- three parts, it is signed under a key of the cache that the call leaves, its payload has not
  -- expired and has the issuer and the audience that the verifier was made with (where these are
  -- not empty), and the subject that is answered is the payload's and is not empty.
  pub verify-IsAccepted :
      (r : Readings) (fetched : Option (List Jwk)) (token : String) (v v' : Verifier) (cl : Claims)
      → verify c r fetched token v ≡ (ok cl, v')
      → IsAccepted v v' r.checked token cl
  unfolding verify or_malformed
  verify-IsAccepted r fetched token v v' cl h =
      elim (Option-cases (three_parts (split_dots token))) [
        | inl bad ↦ absurd (ground arith)
        | inr (parts, cut) ↦ elim (Option-cases (c.decode_base64 parts.header)) [
          | inl bad ↦ absurd (ground arith)
          | inr (header_bytes, decoded) ↦ elim (Option-cases (c.header_json header_bytes)) [
            | inl bad ↦ absurd (ground arith)
            | inr (header, read) ↦ elim (Result-cases (key_for c r fetched header.kid v).0) [
              | inr (e, bad) ↦ absurd (ground arith)
              | inl (key, found) ↦
                  let w = (key_for c r fetched header.kid v).1 in
                  under_key-IsAccepted r.checked token parts header_bytes header key v w v' cl cut
                    decoded read (key_for-ok c r fetched header.kid v w key (ground arith))
                    (ground arith)
            ]
          ]
        ]
      ]

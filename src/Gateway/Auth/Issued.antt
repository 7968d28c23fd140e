-- ===== src/Gateway/Auth/Issued.antt =====
-- From Identity's token manager to the gateway's verifier: a token across the two services. What
-- joins them is documented elsewhere: the compact form of a JWT and the JSON of a key set.
use Prim.Native.String.{◌++◌}
use perfect_gift.Prelude.{
  lacks, split_on-append, split_on-plain, ℕ, ◌+◌, ◌*◌, ◌≤◌, String, List, [], ◌∷◌, map, length, All,
  true, false, ◌≡◌, ◌≢◌, sym, ap, ◌∙◌, subst, none, some, ok, GoMap, Option-cases, inl, inr, arith,
  eq_iff,
}
use perfect_gift.Identity.Types.{Jwk as IssuedJwk}
use perfect_gift.Identity.Tokens.{
  KeyPair, Manager, Jwt, JwtClaims, issue, jwks, jwk_for, claims_for, whole_seconds,
}
use perfect_gift.Identity.Tokens.Rotation.{issue-sign}
use perfect_gift.Gateway.Auth.{pos, Jwk, ed25519, Codec, Readings, second, after_unix}
use perfect_gift.Gateway.Auth.Keys.{new_verifier, public_key, trim_right_equals, usable, panics}
use perfect_gift.Gateway.Auth.Checks.{
  Parts, split_dots, three_parts, verify, audience_contains, verify_signature,
}
use perfect_gift.Gateway.Auth.Keys.Published.{IsOther, key_for-published}
use perfect_gift.Gateway.Auth.Checks.Complete.{
  IsText, numeric_claim_read, numeric_claim_absent, audience_listed, string_claim-IsText, claims_of,
  validate_claims-good, verify-good,
}

-- The seconds from year 1 to 1970.
abbrev pub epoch : ℕ
epoch = 62_135_596_800

-- The key set as the gateway reads it from Identity's JSON.
abbrev pub published : IssuedJwk → Jwk
published j = record {
  kty = j.kty;
  kid = j.kid;
  alg = j.alg;
  use_for = j.use_for;
  n = "";
  e = "";
  crv = j.crv;
  x = j.x;
}

-- The compact form of a JWT that an Ed25519 key has signed, as the gateway's decoders read it: the
-- audience is a list of texts, a text that is empty is left out, and there is no "nbf".
pub record IsCompact (c : Codec) (bytes : List ℕ) (kid : String) (cl : JwtClaims) (token : String)
    : Type 0 where
  pub header : String
  pub payload : String
  pub signature : String
  pub joined : token ≡ header ++ "." ++ payload ++ "." ++ signature
  pub plain_header : lacks b'.' header ≡ true
  pub plain_payload : lacks b'.' payload ≡ true
  pub plain_signature : lacks b'.' signature ≡ true
  pub some_header : header ≢ ""
  pub some_payload : payload ≢ ""
  pub some_signature : signature ≢ ""
  pub header_bytes : List ℕ
  pub header_decodes : c.decode_base64 header ≡ some header_bytes
  pub header_reads : c.header_json header_bytes ≡ some (record { alg = "EdDSA"; kid = kid })
  pub sig : List ℕ
  pub signature_decodes : c.decode_base64 signature ≡ some sig
  pub signs : c.verify_ed25519 bytes (header ++ "." ++ payload) sig ≡ true
  pub payload_bytes : List ℕ
  pub payload_decodes : c.decode_base64 payload ≡ some payload_bytes
  pub raw : GoMap String
  pub payload_reads : c.object_json payload_bytes ≡ some raw
  pub expires : ℕ
  pub exp : String
  pub has_exp : raw "exp" ≡ some exp
  pub exp_number : c.number_json exp ≡ some (pos expires)
  pub expires_at : cl.expires_at ≡ some ((expires + epoch) * second)
  pub no_nbf : raw "nbf" ≡ none
  pub aud : String
  pub has_aud : raw "aud" ≡ some aud
  pub aud_no_text : c.string_json aud ≡ none
  pub aud_list : c.strings_json aud ≡ some cl.audience
  pub iss : IsText c raw "iss" cl.issuer
  pub sub : IsText c raw "sub" cl.subject
  pub jti : IsText c raw "jti" cl.id

parts-joined :
    (h p g : String)
    → lacks b'.' h ≡ true
    → lacks b'.' p ≡ true
    → lacks b'.' g ≡ true
    → h ≢ ""
    → p ≢ ""
    → g ≢ ""
    → three_parts (split_dots (h ++ "." ++ p ++ "." ++ g))
      ≡ some (record { header = h; payload = p; signature = g })
unfolding three_parts split_dots
parts-joined h p g plain_h plain_p plain_g some_h some_p some_g =
    rw (split_on-append "." h (p ++ "." ++ g) plain_h) (
      rw (split_on-append "." p g plain_p) (
        rw (split_on-plain b'.' g plain_g) (ground (arith, eq_iff h "", eq_iff p "", eq_iff g ""))))

some_same : {m n : ℕ} → some m ≡ some n → n ≡ m
some_same e = cc

-- The two readings of an expiry.
in_time :
    (checked expires at : ℕ)
    → (expires + epoch) * second ≡ at
    → checked + epoch * second ≤ at
    → after_unix checked (pos expires) ≡ false
unfolding after_unix
in_time checked expires at same early = ground arith

-- A key of Identity's, current or not, never makes the gateway panic.
published-harmless :
    (c : Codec) (encode : String → String) (kp : KeyPair)
    → public_key c (published (jwk_for encode kp)) ≢ panics
unfolding public_key jwk_for
published-harmless c encode kp bad =
    elim (Option-cases (c.decode_base64 (trim_right_equals (encode kp.public)))) [
      | inl missing ↦ ground arith
      | inr (x, found) ↦ ground arith
    ]

module _ (c : Codec) (encode : String → String) (m : Manager) where
  -- Identity's current key as the gateway reads it.
  abbrev current : Jwk
  current = published (jwk_for encode m.current)

  current-usable :
      (bytes : List ℕ)
      → c.decode_base64 (trim_right_equals (encode m.current.public)) ≡ some bytes
      → length bytes ≡ 32
      → public_key c current ≡ usable (ed25519 bytes)
  unfolding public_key jwk_for
  current-usable bytes known full = ground arith

  jwks-others :
      ((kp : KeyPair) → m.previous ≡ some kp → kp.kid ≢ m.current.kid)
      → (js : List Jwk) × (map published (jwks encode m) ≡ current ∷ js)
        × All (IsOther c m.current.kid) js
  unfolding jwks jwk_for
  jwks-others differ = elim (Option-cases m.previous) [
    | inl alone ↦ ([], ground arith, tt)
    | inr (kp, kept) ↦ (
      published (jwk_for encode kp) ∷ [],
      ground arith,
      ((differ kp kept, published-harmless c encode kp), tt),
    )
  ]

  -- What Identity issues, the gateway accepts: a token that Issue answers for a subject that is
  -- not empty verifies at a gateway that is set up for Identity's issuer and audience and fetches
  -- the published keys, until the token expires, and Verify answers that subject. This rests on
  -- the compact form of the JWT that is signed, and on the published key decoding to 32 bytes; a
  -- previous key has another id than the current one.
  pub issued_accepted :
      (jwt : Jwt) (bytes : List ℕ) (r : Readings) (ttl now lifetime : ℕ)
      (id subject session token : String)
      → ((signed : String)
          → jwt.sign m.current.kid m.current.priv (claims_for m subject session now id) ≡ ok signed
          → IsCompact c bytes m.current.kid (claims_for m subject session now id) signed)
      → c.decode_base64 (trim_right_equals (encode m.current.public)) ≡ some bytes
      → length bytes ≡ 32
      → ((kp : KeyPair) → m.previous ≡ some kp → kp.kid ≢ m.current.kid)
      → issue jwt m (some id) now subject session ≡ ok (token, lifetime)
      → subject ≢ ""
      → r.checked + epoch * second ≤ whole_seconds (now + m.ttl)
      → (verify c r
          (some (map published (jwks encode m)))
          token
          (new_verifier m.issuer m.audience ttl)).0
        ≡ ok (record { subject = subject; issuer = m.issuer; jti = id })
  unfolding claims_for verify_signature jwk_for
  issued_accepted jwt bytes r ttl now lifetime id subject session token compact known full differ
        issued some_subject early =
      let j = compact token (issue-sign jwt m id subject session token now lifetime issued) in
      let (js, listed, others) = jwks-others differ in
      let (v, keyed, issuer, audience) =
        key_for-published c r m.issuer m.audience ttl current js (ed25519 bytes)
          (current-usable bytes known full) others in
      let parts : Parts = record {
        header = j.header;
        payload = j.payload;
        signature = j.signature;
      } in
      let iss = string_claim-IsText c j.raw "iss" m.issuer j.iss in
      let sub = string_claim-IsText c j.raw "sub" subject j.sub in
      let jti = string_claim-IsText c j.raw "jti" id j.jti in
      let claims =
        validate_claims-good c v r.checked j.payload_bytes j.raw (pos j.expires) j.payload_reads
          (numeric_claim_read c j.raw "exp" j.exp (pos j.expires) j.has_exp j.exp_number)
          (in_time r.checked j.expires (whole_seconds (now + m.ttl)) (some_same j.expires_at) early)
          (numeric_claim_absent c j.raw "nbf" j.no_nbf) (iss ∙ sym issuer)
          (subst (λ a. audience_contains c j.raw a ≡ true) (sym audience)
            (audience_listed c j.raw j.aud m.audience [] j.has_aud j.aud_no_text j.aud_list))
          (λ empty. some_subject (sym sub ∙ empty)) in
      let done =
        verify-good c r (some (current ∷ js)) token parts j.header_bytes j.sig j.payload_bytes
          (record { alg = "EdDSA"; kid = m.current.kid }) (ed25519 bytes) j.raw
          (new_verifier m.issuer m.audience ttl) v
          (ap (λ t. three_parts (split_dots t)) j.joined
            ∙ parts-joined j.header j.payload j.signature j.plain_header j.plain_payload
                j.plain_signature j.some_header j.some_payload j.some_signature)
          j.header_decodes j.header_reads keyed j.signature_decodes j.signs j.payload_decodes
          claims in
      let answer : claims_of c j.raw ≡ record { subject = subject; issuer = m.issuer; jti = id } =
        λ i. record { subject = sub i; issuer = iss i; jti = jti i } in
      subst
        (λ l.
          (verify c r (some l) token (new_verifier m.issuer m.audience ttl)).0
          ≡ ok (record { subject = subject; issuer = m.issuer; jti = id }))
        (sym listed) (ap (λ x. x.0) done ∙ ap ok answer)

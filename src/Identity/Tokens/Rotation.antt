-- ===== src/Identity/Tokens/Rotation.antt =====
-- A token across the rotation of keys.
use perfect_gift.Prelude.{
  [], ◌∷◌, true, ℕ, ◌+◌, ◌<◌, String, ◌≡◌, ◌≢◌, refl, none, some, ok, arith, eq_iff, eq_refl, Any,
  inl, inr, Result-cases,
}
use perfect_gift.Identity.Types.{Claims, failure}
use perfect_gift.Identity.Tokens.{
  KeyPair, Manager, Jwt, JwtClaims, ParseOptions, key_function, to_claims, claims_for, issue,
  verify, rotate, public_key_by_kid, jwks, whole_seconds,
}

-- What the JWT library documents of claims that it signs under a key, as a token whose method is
-- Ed25519 and whose header has the key's id: the parser answers these claims, and that they are
-- valid, where the key function finds the key that belongs to the signing key, EdDSA is among the
-- methods, the issuer is the expected one, the audience is among those of the claims, and the time
-- is before the expiry.
abbrev pub IsSound : Jwt → (String → String) → String → String → JwtClaims → Type 0
IsSound jwt public_of kid priv c =
    (signed : String) (o : ParseOptions) (expiry : ℕ)
    → jwt.sign kid priv c ≡ ok signed
    → o.key_for (record { is_ed25519 = true; kid = some kid }) ≡ ok (public_of priv)
    → Any (λ a. a ≡ "EdDSA") o.valid_methods
    → o.issuer ≡ c.issuer
    → Any (λ a. a ≡ o.audience) c.audience
    → c.expires_at ≡ some expiry
    → o.now < expiry
    → jwt.parse o signed ≡ ok (record { claims = c; valid = true })

-- The private key of a token that was issued has signed its claims.
pub issue-sign :
    (jwt : Jwt) (m : Manager) (jti subject session signed : String) (now lifetime : ℕ)
    → issue jwt m (some jti) now subject session ≡ ok (signed, lifetime)
    → jwt.sign m.current.kid m.current.priv (claims_for m subject session now jti) ≡ ok signed
unfolding issue
issue-sign jwt m jti subject session signed now lifetime issued =
    elim (Result-cases
      (jwt.sign m.current.kid m.current.priv (claims_for m subject session now jti))) [
        | inl (s, e) ↦ cc
        | inr (failure _, e) ↦ absurd (cc)
      ]

-- A token verifies until it expires, also after its key has been rotated out by a key with another
-- id, and Verify answers the subject and the session that it was issued for, the manager's issuer
-- and audience, the seconds of its issue and its expiry, and its id. This rests on what the JWT
-- library documents, and on the current key being a pair.
pub issued_survives_rotation :
    (jwt : Jwt) (public_of : String → String) (m : Manager) (kp : KeyPair)
    (jti subject session signed : String) (now later lifetime : ℕ)
    → IsSound jwt public_of m.current.kid m.current.priv (claims_for m subject session now jti)
    → m.current.public ≡ public_of m.current.priv
    → kp.kid ≢ m.current.kid
    → issue jwt m (some jti) now subject session ≡ ok (signed, lifetime)
    → later < whole_seconds (now + m.ttl)
    → let claims : Claims = record {
      subject = subject;
      session_id = session;
      issuer = m.issuer;
      audience = m.audience;
      issued_at = whole_seconds now;
      expires_at = whole_seconds (now + m.ttl);
      jti = jti;
    } in
      (verify jwt m later signed ≡ ok claims)
      × (verify jwt (rotate (some kp) m).1 later signed ≡ ok claims)
unfolding verify rotate key_function public_key_by_kid claims_for to_claims
issued_survives_rotation jwt public_of m kp jti subject session signed now later lifetime sound pair
      other issued early =
    let signs = issue-sign jwt m jti subject session signed now lifetime issued in
    (
      rw
          (sound signed (options m) (whole_seconds (now + m.ttl)) signs
            (ground (arith, eq_refl m.current.kid)) (inl refl) refl (inl refl) refl early)
          refl,
      rw
          (sound signed (options (rotate (some kp) m).1) (whole_seconds (now + m.ttl)) signs
            (ground (arith, eq_refl m.current.kid, eq_iff kp.kid m.current.kid)) (inl refl) refl
            (inl refl) refl early)
          refl,
    )
  where
    options : Manager → ParseOptions
    options n = record {
      key_for = key_function n;
      valid_methods = "EdDSA" ∷ [];
      issuer = n.issuer;
      audience = n.audience;
      now = later;
    }

-- After two rotations the key is retired: its id is neither found nor published.
pub rotated_twice_retires :
    (encode : String → String) (m : Manager) (kp kp' : KeyPair)
    → kp.kid ≢ m.current.kid
    → kp'.kid ≢ m.current.kid
    → let m' = (rotate (some kp') (rotate (some kp) m).1).1 in
      (public_key_by_kid m' m.current.kid ≡ none)
      × (¬ Any (λ j. j.kid ≡ m.current.kid) (jwks encode m'))
unfolding rotate public_key_by_kid jwks
rotated_twice_retires encode m kp kp' other other' = (
  ground (arith, eq_iff kp.kid m.current.kid, eq_iff kp'.kid m.current.kid),
  λ found. elim found [
    | inl e ↦ absurd (other' e)
    | inr (inl e) ↦ absurd (other e)
    | inr (inr nowhere) ↦ absurd nowhere
  ],
)

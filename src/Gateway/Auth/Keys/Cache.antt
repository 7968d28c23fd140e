-- ===== src/Gateway/Auth/Keys/Cache.antt =====
-- What keyFor answers and leaves in the cache.
use perfect_gift.Prelude.{
  ℕ, String, List, [], ◌∷◌, ◌++◌, length, ◌<◌, Bool, true, false, ◌≡◌, refl, Option, none, some, ok,
  err, GoMap, empty_map, put, Bool-cases, Option-cases, Result-cases, ◌⊎◌, if◌then◌else◌, inl, inr,
  arith, eq_iff,
}
use perfect_gift.Gateway.Auth.{
  PublicKey, Codec, Verifier, Readings, Jwk, no_keys, panic, unknown_key,
}
use perfect_gift.Gateway.Auth.Keys.{
  key_for, key_or_unknown, lookup, after_refresh, refreshed, refresh_locked, gathered, is_known,
  public_key, rsa_key, trim_right_equals, panics, usable, skipped, Parsed,
}

pub Parsed-cases :
    (p : Parsed) → ((k : PublicKey) × (p ≡ usable k)) ⊎ ((p ≡ skipped) ⊎ (p ≡ panics))
Parsed-cases (usable k) = inl (k, refl)
Parsed-cases skipped = inr (inl refl)
Parsed-cases panics = inr (inr refl)

module _ (c : Codec) where
  -- The cache holds the key, and what is expected of tokens stays.
  abbrev pub Keeps : String → Verifier → PublicKey → Verifier → Type 0
  Keeps kid v k v' = (v'.keys kid ≡ some k) × (v'.issuer ≡ v.issuer) × (v'.audience ≡ v.audience)

  lookup-ok :
      (kid : String) (v v' : Verifier) (k : PublicKey)
      → lookup c kid v ≡ (ok k, v')
      → Keeps kid v k v'
  unfolding lookup key_or_unknown
  lookup-ok kid v v' k h = elim (Option-cases (v.keys kid)) [
    | inl missing ↦ absurd (ground arith)
    | inr (x, found) ↦ (ground arith, ground arith, ground arith)
  ]

  -- A refresh that brings nothing.
  unrefreshed-ok :
      (kid : String) (v v' : Verifier) (k : PublicKey)
      → after_refresh c kid v (ok none) ≡ (ok k, v')
      → Keeps kid v k v'
  unfolding after_refresh
  unrefreshed-ok kid v v' k h = elim (Bool-cases v.have_keys) [
    | inl kept ↦ lookup-ok kid v v' k (ground arith)
    | inr nothing ↦ absurd (ground arith)
  ]

  after_refresh-ok :
      (r : Readings) (fetched : Option (List Jwk)) (kid : String) (v v' : Verifier) (k : PublicKey)
      → after_refresh c kid v (refresh_locked c r.fetched fetched v) ≡ (ok k, v')
      → Keeps kid v k v'
  unfolding after_refresh refresh_locked refreshed
  after_refresh-ok r none kid v v' k h = unrefreshed-ok kid v v' k h
  after_refresh-ok r (some js) kid v v' k h = elim (Result-cases (gathered c js empty_map true)) [
    | inr (e, bad) ↦ absurd (ground arith)
    | inl ((keys, true), e) ↦ unrefreshed-ok kid v v' k (ground arith)
    | inl ((keys, false), e) ↦
        lookup-ok kid (record v { keys = keys; fetched_at = r.fetched; have_keys = true }) v' k
          (ground arith)
  ]

  pub key_for-ok :
      (r : Readings) (fetched : Option (List Jwk)) (kid : String) (v v' : Verifier) (k : PublicKey)
      → key_for c r fetched kid v ≡ (ok k, v')
      → Keeps kid v k v'
  unfolding key_for
  key_for-ok r fetched kid v v' k h =
      ground (arith, lookup-ok kid v v' k, after_refresh-ok r fetched kid v v' k)

  -- While the key source is down, the cache is left as it is, and it answers as if it were fresh;
  -- only a verifier that has never fetched fails.
  pub outage :
      (r : Readings) (kid : String) (v : Verifier)
      → key_for c r none kid v ≡ (
        if v.have_keys
            then elim (v.keys kid) [ some k ↦ ok k | none ↦ err unknown_key ]
            else err no_keys,
        v,
      )
  unfolding key_for after_refresh refresh_locked lookup key_or_unknown is_known
  outage r kid v = elim (Bool-cases v.have_keys) [
    | inr nothing ↦ ground arith
    | inl kept ↦ elim (Option-cases (v.keys kid)) [
      | inl unknown ↦ ground arith
      | inr (k, known) ↦ ground arith
    ]
  ]

  gathered-panics :
      (j : Jwk) (before after : List Jwk) (keys : GoMap PublicKey) (empty : Bool)
      → public_key c j ≡ panics
      → gathered c (before ++ j ∷ after) keys empty ≡ err panic
  unfolding gathered
  gathered-panics j [] after keys empty h = ground arith
  gathered-panics j (x ∷ before) after keys empty h = elim (Parsed-cases (public_key c x)) [
    | inl (k, e) ↦ ground (arith, gathered-panics j before after (put keys x.kid k) false h)
    | inr (inl e) ↦ ground (arith, gathered-panics j before after keys empty h)
    | inr (inr e) ↦ ground arith
  ]

  -- One published RSA key whose exponent has more than eight bytes takes down the fetch of the
  -- whole set, wherever it stands: a verifier without keys panics on every token.
  pub long_exponent_panics :
      (r : Readings) (j : Jwk) (before after : List Jwk) (n e : List ℕ) (kid : String)
      (v : Verifier)
      → j.kty ≡ "RSA"
      → c.decode_base64 (trim_right_equals j.n) ≡ some n
      → c.decode_base64 (trim_right_equals j.e) ≡ some e
      → 8 < length e
      → v.have_keys ≡ false
      → key_for c r (some (before ++ j ∷ after)) kid v ≡ (err panic, v)
  unfolding key_for after_refresh refresh_locked refreshed public_key rsa_key
  long_exponent_panics r j before after n e kid v rsa_kind modulus exponent long nothing =
      let bad : public_key c j ≡ panics = ground (arith, eq_iff j.kty "RSA") in
      ground (arith, gathered-panics j before after empty_map true bad)

-- ===== src/Identity/Provider/Proven.antt =====
-- What a verified ID token has.
use perfect_gift.Prelude.{
  ℕ, ◌-◌, ltb, String, List, [], ◌∷◌, true, ◌≡◌, ◌≢◌, refl, ap, subst, ◌∙◌, Option, some, Result,
  ok, err, GoMap, Bool-cases, Option-cases, Result-cases, inl, inr, arith, eq_iff, eq_refl,
}
use perfect_gift.Identity.Types.{External, IdError}
use perfect_gift.Identity.Provider.{
  key_in, ProviderVerifier, RsaKey, CacheEntry, Cache, DocKey, IdClaims, IdParser, Settings,
  settings_of, pick, contains, audience_matches, keys_for, fetch_jwks, verify, proven, with_keys,
  stored, cached_or,
}

module _ (decode : String → Option (List ℕ)) where
  -- The claims pass the checks of Verify for a provider with settings.
  abbrev pub HasProof : Settings → String → External → IdClaims → Type 0
  HasProof s provider ext claims =
      (audience_matches claims s.audiences ≡ true)
      × (contains s.issuers claims.iss ≡ true)
      × (ext.provider ≡ provider)
      × (ext.subject ≡ claims.sub)
      × (ext.subject ≢ "")

  proven-ok :
      (s : Settings) (provider : String) (r : Result IdError IdClaims) (ext : External)
      → proven decode s provider r ≡ ok ext
      → (claims : IdClaims) × (r ≡ ok claims) × HasProof s provider ext claims
  unfolding proven
  proven-ok s provider (err e) ext h = absurd (cc)
  proven-ok s provider (ok claims) ext h = (
    claims,
    refl,
    (ground arith, ground arith, ground arith, ground arith, ground (arith, eq_iff claims.sub "")),
  )

  -- The cache has the keys for an address.
  abbrev IsCached : String → Cache → GoMap RsaKey → Type 0
  IsCached url cache keys = (entry : CacheEntry) × (cache url ≡ some entry) × (entry.keys ≡ keys)

  stored-IsCached :
      (at : ℕ) (url : String) (fresh : Result IdError (GoMap RsaKey)) (cache cache' : Cache)
      (keys : GoMap RsaKey)
      → stored decode at url fresh cache ≡ (ok keys, cache')
      → IsCached url cache' keys
  unfolding stored
  stored-IsCached at url (err e) cache cache' keys h = absurd (cc)
  stored-IsCached at url (ok new) cache cache' keys h =
      (record { keys = new; fetched_at = at }, ground (arith, eq_refl url), ground arith)

  -- The cache that the call leaves has the keys for the provider's address.
  keys_for-IsCached :
      (ttl now at : ℕ) (fetched : String → Result IdError (List DocKey)) (url : String)
      (cache cache' : Cache) (keys : GoMap RsaKey)
      → keys_for decode ttl now at fetched url cache ≡ (ok keys, cache')
      → IsCached url cache' keys
  unfolding keys_for cached_or
  keys_for-IsCached ttl now at fetched url cache cache' keys h =
      let fresh = fetch_jwks decode fetched url in
      elim (Option-cases (cache url)) [
        | inl missing ↦ stored-IsCached at url fresh cache cache' keys (ground arith)
        | inr (entry, held) ↦ elim (Bool-cases (ltb (now - entry.fetched_at) ttl)) [
          | inl young ↦ (entry, ground arith, ground arith)
          | inr old ↦ stored-IsCached at url fresh cache cache' keys (ground arith)
        ]
      ]

  -- Where Verify answers an identity, the provider is a known one, and the token has parsed under
  -- the keys that the cache then has for it, with the first of its client ids as the audience; the
  -- audience is one of its client ids and the issuer one of its issuers; and the subject is the
  -- token's and not empty.
  pub provider_verify-HasProof :
      (p : IdParser) (v : ProviderVerifier) (now at : ℕ)
      (fetched : String → Result IdError (List DocKey)) (provider raw : String)
      (cache cache' : Cache) (ext : External)
      → verify decode p v now at fetched provider raw cache ≡ (ok ext, cache')
      → (s : Settings) × (entry : CacheEntry) × (claims : IdClaims) × (settings_of v provider
          ≡ some s)
        × (cache' s.jwks_url ≡ some entry)
        × (p.parse (key_in entry.keys) (pick s.audiences) raw ≡ ok claims)
        × HasProof s provider ext claims
  unfolding verify with_keys
  provider_verify-HasProof p v now at fetched provider raw cache cache' ext h =
      elim (Option-cases (settings_of v provider)) [
        | inl unknown ↦ absurd (ground arith)
        | inr (s, known) ↦
            let keyed = keys_for decode v.cache_ttl now at fetched s.jwks_url cache in
            elim (Result-cases keyed.0) [
              | inr (e, bad) ↦ absurd (ground arith)
              | inl (keys, found) ↦
                  let (entry, held, same) =
                    keys_for-IsCached v.cache_ttl now at fetched s.jwks_url cache cache' keys
                      (ground arith) in
                  let (claims, parsed, proof) =
                    proven-ok s provider (p.parse (key_in keys) (pick s.audiences) raw) ext
                      (ground arith) in
                  (
                    s,
                    entry,
                    claims,
                    known,
                    held,
                    ap (λ k. p.parse (key_in k) (pick s.audiences) raw) same ∙ parsed,
                    proof,
                  )
            ]
      ]

-- Only tokens for the first configured client id are accepted, where the parser accepts none
-- without the audience that it is told (as the JWT library documents) and there is a client id:
-- the token of a verified identity has the first client id in its audience, whatever the others
-- are.
pub first_client_only :
    (decode : String → Option (List ℕ)) (p : IdParser) (v : ProviderVerifier) (now at : ℕ)
    (fetched : String → Result IdError (List DocKey)) (provider raw : String) (cache cache' : Cache)
    (ext : External)
    → ((keys : GoMap RsaKey) (audience token : String) (claims : IdClaims)
        → p.parse (key_in keys) audience token ≡ ok claims
        → audience ≢ ""
        → audience_matches claims (audience ∷ []) ≡ true)
    → verify decode p v now at fetched provider raw cache ≡ (ok ext, cache')
    → (s : Settings) (first : String) (rest : List String) → settings_of v provider ≡ some s
    → s.audiences ≡ first ∷ rest
    → first ≢ ""
    → (keys : GoMap RsaKey) × (claims : IdClaims) × (p.parse (key_in keys) first raw ≡ ok claims)
      × (ext.subject ≡ claims.sub)
      × (audience_matches claims (first ∷ []) ≡ true)
unfolding pick
first_client_only decode p v now at fetched provider raw cache cache' ext demands h s first rest
      known ids some_first =
    let (s', entry, claims, known', held, parsed, (audience, issuer, own, subject, some_subject)) =
      provider_verify-HasProof decode p v now at fetched provider raw cache cache' ext h in
    let same : s' ≡ s = cc in
    let told : pick s'.audiences ≡ first =
      ap (λ (t : Settings). pick t.audiences) same ∙ ap pick ids in
    let by_first : p.parse (key_in entry.keys) first raw ≡ ok claims =
      subst (λ a. p.parse (key_in entry.keys) a raw ≡ ok claims) told parsed in
    (entry.keys, claims, by_first, subject, demands entry.keys first raw claims by_first some_first)

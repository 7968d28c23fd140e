-- ===== src/Gateway/Auth/Keys/Published.antt =====
-- The cache after a first fetch.
use perfect_gift.Prelude.{
  ℕ, String, List, [], ◌∷◌, All, Bool, true, false, ◌≡◌, ◌≢◌, ◌∙◌, refl, some, ok, GoMap, empty_map,
  put, inl, inr, arith, eq_iff, eq_refl,
}
use perfect_gift.Gateway.Auth.{PublicKey, Codec, Verifier, Readings, Jwk}
use perfect_gift.Gateway.Auth.Keys.{
  usable, skipped, panics, key_for, key_or_unknown, lookup, after_refresh, refreshed,
  refresh_locked, gathered, public_key, new_verifier,
}
use perfect_gift.Gateway.Auth.Keys.Cache.{Parsed-cases}

module _ (c : Codec) where
  -- A published key that is not the one with an id, and does no harm.
  abbrev pub IsOther : String → Jwk → Type 0
  IsOther kid j = (j.kid ≢ kid) × (public_key c j ≢ panics)

  gathered-usable :
      (j : Jwk) (js : List Jwk) (keys : GoMap PublicKey) (k : PublicKey) (empty : Bool)
      → public_key c j ≡ usable k
      → gathered c (j ∷ js) keys empty ≡ gathered c js (put keys j.kid k) false
  unfolding gathered
  gathered-usable j js keys k empty e = ground arith

  gathered-skipped :
      (j : Jwk) (js : List Jwk) (keys : GoMap PublicKey) (empty : Bool)
      → public_key c j ≡ skipped
      → gathered c (j ∷ js) keys empty ≡ gathered c js keys empty
  unfolding gathered
  gathered-skipped j js keys empty e = ground arith

  gathered-others :
      (kid : String) (k : PublicKey) (js : List Jwk) (keys : GoMap PublicKey)
      → keys kid ≡ some k
      → All (IsOther kid) js
      → (keys' : GoMap PublicKey) × (gathered c js keys false ≡ ok (keys', false))
        × (keys' kid ≡ some k)
  unfolding gathered
  gathered-others kid k [] keys held others = (keys, refl, held)
  gathered-others kid k (j ∷ js) keys held ((differs, harmless), others) =
      elim (Parsed-cases (public_key c j)) [
        | inr (inr bad) ↦ absurd (harmless bad)
        | inr (inl skips) ↦
            let (keys', g, h) = gathered-others kid k js keys held others in
            (keys', gathered-skipped j js keys false skips ∙ g, h)
        | inl (k', reads) ↦
            let (keys', g, h) =
              gathered-others kid k js (put keys j.kid k') (ground (arith, eq_iff j.kid kid))
                others in
            (keys', gathered-usable j js keys k' false reads ∙ g, h)
      ]

  -- A new verifier that finds a usable key in front of harmless others has it from then on.
  pub key_for-published :
      (r : Readings) (issuer audience : String) (ttl : ℕ) (j : Jwk) (js : List Jwk) (k : PublicKey)
      → public_key c j ≡ usable k
      → All (IsOther j.kid) js
      → (v : Verifier) × (key_for c r (some (j ∷ js)) j.kid (new_verifier issuer audience ttl)
          ≡ (ok k, v))
        × (v.issuer ≡ issuer)
        × (v.audience ≡ audience)
  unfolding key_for after_refresh lookup key_or_unknown refresh_locked refreshed new_verifier
  key_for-published r issuer audience ttl j js k reads others =
      let (keys, g, h) =
        gathered-others j.kid k js (put empty_map j.kid k) (ground (arith, eq_refl j.kid)) others in
      let v0 = new_verifier issuer audience ttl in
      let first = gathered-usable j js empty_map k true reads ∙ g in
      (
        record v0 { keys = keys; fetched_at = r.fetched; have_keys = true },
        ground arith,
        refl,
        refl,
      )

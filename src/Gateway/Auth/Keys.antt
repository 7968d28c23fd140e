-- ===== src/Gateway/Auth/Keys.antt =====
-- The key set of verifier.go: from published keys to public keys, and its cache.
pub mod Cache
pub mod Published
use Prim.Native.Char.{code}
use Prim.Native.String.{◌++◌}
use perfect_gift.Prelude.{
  ℕ, ◌+◌, ◌*◌, ◌-◌, ◌%◌, ◌^◌, String, List, [], ◌∷◌, length, Bool, true, false, not, ◌&&◌, ◌||◌,
  Option, none, some, Result, ok, err, Exec, GoMap, empty_map, put, eqb, ltb, leb, ◌==◌,
  if◌then◌else◌,
}
use perfect_gift.Gateway.Auth.{
  negsuc, pos, ℤ, Jwk, PublicKey, rsa, ed25519, AuthError, unknown_key, no_keys, panic, Codec,
  Verifier, Readings,
}

-- New, without keys.
unfoldable pub new_verifier : String → String → ℕ → Verifier
new_verifier issuer audience refresh_ttl = record {
  issuer = issuer;
  audience = audience;
  ttl = if eqb refresh_ttl 0 then 600_000_000_000 else refresh_ttl;
  keys = empty_map;
  fetched_at = 0;
  have_keys = false;
}

-- What becomes of one published key: an error skips it, a panic does not.
pub data Parsed : Type 0 where
  usable : PublicKey → Parsed
  skipped panics : Parsed

-- strings.TrimRight(s, "=")
unfoldable pub trim_right_equals : String → String
trim_right_equals String.[] = ""
trim_right_equals (String.◌∷◌ c s) =
    let rest = trim_right_equals s in
    if rest == "" && eqb (code c) b'=' then "" else String.◌∷◌ c rest

-- big.Int.SetBytes, and binary.BigEndian.Uint64 of eight bytes.
unfoldable pub from_bytes : ℕ → List ℕ → ℕ
from_bytes acc [] = acc
from_bytes acc (b ∷ bs) = from_bytes (acc * 256 + b) bs

-- int of a uint64, which wraps.
to_int : ℕ → ℤ
to_int u = if ltb u (2 ^ 63) then pos u else negsuc (2 ^ 64 - 1 - u)

-- The exponent is copied to the end of eight bytes: `padded[8-len(eBytes):]` panics on more than
-- eight.
rsa_key : Option (List ℕ) → Option (List ℕ) → Parsed
unfolding from_bytes to_int
rsa_key none _ = skipped
rsa_key (some n) none = skipped
rsa_key (some n) (some e) =
    if eqb (length e) 0
    then skipped
    else if ltb 8 (length e)
    then panics
    else usable (rsa (from_bytes 0 n) (to_int (from_bytes 0 e)))

okp_key : Option (List ℕ) → Parsed
okp_key none = skipped
okp_key (some x) = if eqb (length x) 32 then usable (ed25519 x) else skipped

module _ (c : Codec) where
  -- publicKey
  unfoldable pub public_key : Jwk → Parsed
  unfolding rsa_key okp_key trim_right_equals
  public_key j =
      if j.kty == "RSA"
      then rsa_key (c.decode_base64 (trim_right_equals j.n))
          (c.decode_base64 (trim_right_equals j.e))
      else if j.kty == "OKP"
      then (if j.crv == "Ed25519"
          then okp_key (c.decode_base64 (trim_right_equals j.x))
          else skipped)
      else skipped

  -- The loop of refreshLocked over the map built so far, and whether it is empty.
  gathered : List Jwk → GoMap PublicKey → Bool → Result AuthError (GoMap PublicKey × Bool)
  unfolding public_key
  gathered [] keys empty = ok (keys, empty)
  gathered (j ∷ js) keys empty = elim (public_key j) [
    | usable k ↦ gathered js (put keys j.kid k) false
    | skipped ↦ gathered js keys empty
    | panics ↦ err panic
  ]

  -- The end of refreshLocked; `none` is its error.
  refreshed :
      ℕ → Result AuthError (GoMap PublicKey × Bool) → Verifier → Result AuthError (Option Verifier)
  refreshed at (err e) v = err e
  refreshed at (ok (keys, true)) v = ok none
  refreshed at (ok (keys, false)) v =
      ok (some (record v { keys = keys; fetched_at = at; have_keys = true }))

  -- refreshLocked
  unfoldable pub refresh_locked :
      ℕ → Option (List Jwk) → Verifier → Result AuthError (Option Verifier)
  unfolding refreshed gathered
  refresh_locked at none v = ok none
  refresh_locked at (some js) v = refreshed at (gathered js empty_map true) v

  key_or_unknown : Option PublicKey → Result AuthError PublicKey
  key_or_unknown none = err unknown_key
  key_or_unknown (some k) = ok k

  lookup : String → Exec Verifier AuthError PublicKey
  unfolding key_or_unknown
  lookup kid v = (key_or_unknown (v.keys kid), v)

  -- Behind a refresh: without keys it fails closed, with the last known ones it goes on.
  after_refresh :
      String → Verifier → Result AuthError (Option Verifier) → Result AuthError PublicKey × Verifier
  unfolding lookup
  after_refresh kid v (err e) = (err e, v)
  after_refresh kid v (ok none) = if v.have_keys then lookup kid v else (err no_keys, v)
  after_refresh kid v (ok (some v')) = lookup kid v'

  is_known : Option PublicKey → Bool
  is_known none = false
  is_known (some k) = true

  -- keyFor; the source answers `none` where it fails.
  unfoldable pub key_for : Readings → Option (List Jwk) → String → Exec Verifier AuthError PublicKey
  unfolding refresh_locked after_refresh lookup is_known
  key_for r fetched kid v =
      if (not v.have_keys || leb v.ttl (r.since - v.fetched_at)) || not (is_known (v.keys kid))
      then after_refresh kid v (refresh_locked r.fetched fetched v)
      else lookup kid v

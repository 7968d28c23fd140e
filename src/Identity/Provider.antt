-- ===== src/Identity/Provider.antt =====
-- services/backend/identity/internal/oauth/provider.go: the ID tokens of Google and Apple are
-- verified against each provider's key set, which is cached. The token parser of the JWT library
-- and base64url are parameters; what the key set's address answers and the readings of the clock
-- are arguments.
pub mod Proven
use perfect_gift.Prelude.{
  ℕ, ◌+◌, ◌*◌, ◌-◌, ◌%◌, ◌^◌, String, List, [], ◌∷◌, Bool, true, false, not, ◌||◌, Option, none,
  some, Result, ok, err, Exec, GoMap, empty_map, put, ltb, ◌==◌, if◌then◌else◌, pure, raise,
  refuse_if, ◌>>=◌, ◌>>◌,
}
use perfect_gift.Identity.Types.{External, IdError, failure}

pub record ProviderVerifier : Type 0 where
  pub google_client_ids : List String
  pub apple_client_ids : List String
  pub google_jwks_url : String
  pub apple_jwks_url : String
  pub google_issuers : List String
  pub apple_issuers : List String
  pub cache_ttl : ℕ

pub record RsaKey : Type 0 where
  pub modulus : ℕ
  pub exponent : ℕ

-- keyCacheEntry
pub record CacheEntry : Type 0 where
  pub keys : GoMap RsaKey
  pub fetched_at : ℕ

abbrev pub Cache : Type 0
Cache = GoMap CacheEntry

-- A key of jwksDoc.
pub record DocKey : Type 0 where
  pub kty : String
  pub kid : String
  pub n : String
  pub e : String

-- The claim email_verified: a JSON Boolean, a text, or neither.
pub data EmailVerified : Type 0 where
  flag : Bool → EmailVerified
  word : String → EmailVerified
  neither : EmailVerified

-- The claims that are read; a text that is missing or no text is empty, and `none` stands for an
-- `aud` that GetAudience refuses.
pub record IdClaims : Type 0 where
  pub iss : String
  pub sub : String
  pub aud : Option (List String)
  pub email : String
  pub email_verified : EmailVerified

-- What the key function sees of a token: whether its method is *jwt.SigningMethodRSA, and the text
-- of its "kid", if it has one.
pub record IdHeader : Type 0 where
  pub is_rsa : Bool
  pub kid : Option String

-- ParseWithClaims, by the key function and the audience. It accepts RS256 alone and wants an
-- expiry.
pub record IdParser : Type 0 where
  pub parse : (IdHeader → Result IdError RsaKey) → String → String → Result IdError IdClaims

known_key : Option RsaKey → Result IdError RsaKey
known_key none = err (failure "unknown key id")
known_key (some key) = ok key

kid_of : Option String → String
kid_of none = ""
kid_of (some kid) = kid

-- The key function of Verify.
pub key_in : GoMap RsaKey → IdHeader → Result IdError RsaKey
unfolding known_key kid_of
key_in keys h =
    if h.is_rsa then known_key (keys (kid_of h.kid)) else err (failure "unexpected signing method")

-- Address, client ids and issuers of a provider.
pub record Settings : Type 0 where
  pub jwks_url : String
  pub audiences : List String
  pub issuers : List String

unfoldable pub settings_of : ProviderVerifier → String → Option Settings
settings_of v provider =
    if provider == "google"
    then some (record {
      jwks_url = v.google_jwks_url;
      audiences = v.google_client_ids;
      issuers = v.google_issuers;
    })
    else if provider == "apple"
    then some (record {
      jwks_url = v.apple_jwks_url;
      audiences = v.apple_client_ids;
      issuers = v.apple_issuers;
    })
    else none

unfoldable pub pick : List String → String
pick [] = ""
pick (a ∷ rest) = a

unfoldable pub contains : List String → String → Bool
contains [] s = false
contains (x ∷ list) s = x == s || contains list s

any_contained : List String → List String → Bool
unfolding contains
any_contained [] accepted = false
any_contained (a ∷ rest) accepted = contains accepted a || any_contained rest accepted

-- audienceMatches
unfoldable pub audience_matches : IdClaims → List String → Bool
unfolding any_contained
audience_matches claims accepted = elim claims.aud [
  | none ↦ false
  | some aud ↦ any_contained aud accepted
]

-- big.Int.SetBytes
from_bytes : ℕ → List ℕ → ℕ
from_bytes acc [] = acc
from_bytes acc (b ∷ bs) = from_bytes (acc * 256 + b) bs

-- The exponent is an int64, as its bit pattern.
rsa_from : Option (List ℕ) → Option (List ℕ) → Option RsaKey
unfolding from_bytes
rsa_from (some n) (some e) =
    some (record { modulus = from_bytes 0 n; exponent = from_bytes 0 e % 2 ^ 64 })
rsa_from _ _ = none

unfoldable pub jwk_to_rsa_public_key : (String → Option (List ℕ)) → String → String → Option RsaKey
unfolding rsa_from
jwk_to_rsa_public_key decode n e = rsa_from (decode n) (decode e)

unfoldable pub is_verified : EmailVerified → Bool
is_verified (flag b) = b
is_verified (word w) = w == "true"
is_verified neither = false

module _ (decode : String → Option (List ℕ)) where
  -- The loop of fetchJWKS over the map built so far, and whether it is empty: one key that does not
  -- decode fails the whole set.
  collected : List DocKey → GoMap RsaKey → Bool → Result IdError (GoMap RsaKey)
  unfolding jwk_to_rsa_public_key
  collected [] keys empty =
      if empty then err (failure "oauth: jwks had no usable RSA keys") else ok keys
  collected (k ∷ ks) keys empty =
      let skipped = collected ks keys empty in
      elim (jwk_to_rsa_public_key decode k.n k.e) [
        | none ↦ if k.kty == "RSA" then err (failure "oauth: bad jwk") else skipped
        | some key ↦
            (let taken = collected ks (put keys k.kid key) false in
              if k.kty == "RSA" then taken else skipped)
      ]

  -- fetchJWKS; `fetched` answers the request and its JSON.
  unfoldable pub fetch_jwks :
      (String → Result IdError (List DocKey)) → String → Result IdError (GoMap RsaKey)
  unfolding collected
  fetch_jwks fetched url = elim (fetched url) [
    | err e ↦ err e
    | ok doc ↦ collected doc empty_map true
  ]

  stored : ℕ → String → Result IdError (GoMap RsaKey) → Exec Cache IdError (GoMap RsaKey)
  stored at url (err e) cache = (err e, cache)
  stored at url (ok keys) cache = (ok keys, put cache url (record { keys = keys; fetched_at = at }))

  cached_or :
      ℕ
      → ℕ
      → ℕ
      → String
      → Result IdError (GoMap RsaKey)
      → Option CacheEntry
      → Exec Cache IdError (GoMap RsaKey)
  unfolding stored
  cached_or ttl now at url fresh none cache = stored at url fresh cache
  cached_or ttl now at url fresh (some entry) cache =
      if ltb (now - entry.fetched_at) ttl then (ok entry.keys, cache) else stored at url fresh cache

  -- keysFor; the clock is read for the age of the entry and for a new one.
  unfoldable pub keys_for :
      ℕ
      → ℕ
      → ℕ
      → (String → Result IdError (List DocKey))
      → String
      → Exec Cache IdError (GoMap RsaKey)
  unfolding cached_or fetch_jwks
  keys_for ttl now at fetched url cache =
      cached_or ttl now at url (fetch_jwks fetched url) (cache url) cache

  -- The checks behind the parser.
  proven : Settings → String → Result IdError IdClaims → Result IdError External
  unfolding audience_matches contains is_verified
  proven s provider (err e) = err e
  proven s provider (ok claims) =
      if not (audience_matches claims s.audiences)
      then err (failure "oauth: token audience not accepted")
      else if not (contains s.issuers claims.iss)
      then err (failure "oauth: unexpected issuer")
      else if claims.sub == ""
      then err (failure "oauth: token missing subject")
      else ok (record {
        provider = provider;
        subject = claims.sub;
        email = claims.email;
        email_verified = is_verified claims.email_verified;
      })

  with_keys :
      IdParser
      → Settings
      → String
      → String
      → Exec Cache IdError (GoMap RsaKey)
      → Exec Cache IdError External
  unfolding proven pick
  with_keys p s provider raw keyed cache = elim (keyed cache).0 [
    | err e ↦ (err e, (keyed cache).1)
    | ok keys ↦ (proven s provider (p.parse (key_in keys) (pick s.audiences) raw), (keyed cache).1)
  ]

  -- Verify
  unfoldable pub verify :
      IdParser
      → ProviderVerifier
      → ℕ
      → ℕ
      → (String → Result IdError (List DocKey))
      → String
      → String
      → Exec Cache IdError External
  unfolding with_keys settings_of keys_for
  verify p v now at fetched provider raw = elim (settings_of v provider) [
    | none ↦ raise (failure "oauth: unsupported provider")
    | some s ↦ with_keys p s provider raw (keys_for v.cache_ttl now at fetched s.jwks_url)
  ]

-- ===== src/Tests/Providers.antt =====
-- The verifier of ID tokens at concrete inputs.
use perfect_gift.Prelude.{
  ℕ, String, List, [], ◌∷◌, true, ◌≡◌, refl, Option, some, Result, ok, err, GoMap, put, empty_map,
  arith, eq_iff, ◌==◌, if◌then◌else◌,
}
use perfect_gift.Identity.Types.{External, IdError, failure}
use perfect_gift.Identity.Provider.{
  key_in, ProviderVerifier, RsaKey, CacheEntry, Cache, DocKey, IdClaims, IdParser, Settings, flag,
  settings_of, pick, contains, audience_matches, verify,
}
use perfect_gift.Identity.Provider.Proven.{HasProof, provider_verify-HasProof, first_client_only}

abbrev two_clients : ProviderVerifier
two_clients = record {
  google_client_ids = "ios" ∷ "web" ∷ [];
  apple_client_ids = [];
  google_jwks_url = "google";
  apple_jwks_url = "apple";
  google_issuers = "accounts.google.com" ∷ [];
  apple_issuers = [];
  cache_ttl = 10;
}

abbrev ann_claims : IdClaims
ann_claims = record {
  iss = "accounts.google.com";
  sub = "g1";
  aud = some ("ios" ∷ []);
  email = "ann@x";
  email_verified = flag true;
}

-- A library whose tokens are all ann's, for one audience.
abbrev parser : IdParser
parser = record {
  parse =
      λ key_for audience raw. if audience == "ios" then ok ann_claims else err (failure "audience");
}

abbrev decode : String → Option (List ℕ)
decode s = some (3 ∷ [])

abbrev answers : String → Result IdError (List DocKey)
answers url = ok (record { kty = "RSA"; kid = "k1"; n = "n"; e = "e" } ∷ [])

abbrev cached : Cache
cached =
    put empty_map "google"
      (record { keys = put empty_map "k1" (record { modulus = 3; exponent = 3 }); fetched_at = 5 })

abbrev ann : External
ann = record { provider = "google"; subject = "g1"; email = "ann@x"; email_verified = true }

abbrev google_settings : Settings
google_settings = record {
  jwks_url = "google";
  audiences = "ios" ∷ "web" ∷ [];
  issuers = "accounts.google.com" ∷ [];
}

provider_verify-HasProof_example :
    (s : Settings) × (entry : CacheEntry) × (claims : IdClaims) × (settings_of two_clients "google"
      ≡ some s)
    × (cached s.jwks_url ≡ some entry)
    × (parser.parse (key_in entry.keys) (pick s.audiences) "token" ≡ ok claims)
    × HasProof decode s "google" ann claims
unfolding verify
provider_verify-HasProof_example =
    provider_verify-HasProof decode parser two_clients 4 5 answers "google" "token" empty_map cached
      ann refl

first_client_only_example :
    (keys : GoMap RsaKey) × (claims : IdClaims) × (parser.parse (key_in keys) "ios" "token"
      ≡ ok claims)
    × (ann.subject ≡ claims.sub)
    × (audience_matches claims ("ios" ∷ []) ≡ true)
unfolding verify audience_matches contains
first_client_only_example =
    first_client_only decode parser two_clients 4 5 answers "google" "token" empty_map cached ann
      (λ keys audience token claims parsed some_audience. ground arith) refl google_settings "ios"
      ("web" ∷ []) refl refl (ground (arith, eq_iff "ios" ""))

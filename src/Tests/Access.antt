-- ===== src/Tests/Access.antt =====
-- The gateway's verifier at concrete inputs.
use perfect_gift.Prelude.{
  inr, lacks, [], ◌∷◌, true, false, ◌≡◌, refl, none, some, ok, err, ◌==◌, arith, put, empty_map,
  if◌then◌else◌,
}
use perfect_gift.Gateway.Auth.{Codec, Verifier, Readings, Jwk, Claims, pos, rsa, panic}
use perfect_gift.Gateway.Auth.Keys.{key_for, trim_right_equals}
use perfect_gift.Gateway.Auth.Keys.Cache.{long_exponent_panics}
use perfect_gift.Gateway.Auth.Checks.{verify}
use perfect_gift.Gateway.Auth.Checks.Accepted.{IsAccepted, verify-IsAccepted}
use perfect_gift.Prelude.{◌*◌, map, subst, GoMap, ℕ, List, String, eq_iff}
use perfect_gift.Gateway.Auth.{second}
use perfect_gift.Gateway.Auth.Keys.{new_verifier}
use perfect_gift.Gateway.Auth.Issued.{IsCompact, published, epoch, issued_accepted}
use perfect_gift.Identity.Types.{failure}
use perfect_gift.Identity.Tokens.{KeyPair, Manager, Jwt, issue, jwks, claims_for}

-- Base64 of one byte, by the first letter; one header, one payload and one good signature.
abbrev codec : Codec
codec = record {
  decode_base64 = λ s.
      if s == "AAECAwQFBgcI" then some (0 ∷ 1 ∷ 2 ∷ 3 ∷ 4 ∷ 5 ∷ 6 ∷ 7 ∷ 8 ∷ []) else some (1 ∷ []);
  header_json = λ bs. some (record { alg = "RS256"; kid = "k1" });
  object_json = λ bs. some (put (put (put empty_map "sub" "u1") "iss" "identity") "exp" "9");
  number_json = λ s. some (pos 9);
  string_json = λ s. some s;
  strings_json = λ s. none;
  sha256 = λ s. [];
  verify_rsa = λ n e digest sig. true;
  verify_ed25519 = λ x input sig. false;
}

abbrev clock : Readings
clock = record { since = 3; fetched = 3; checked = 4 }

abbrev key : Jwk
key = record {
  kty = "RSA";
  kid = "k1";
  alg = "";
  use_for = "";
  n = "AQ";
  e = "AQ";
  crv = "";
  x = "";
}

abbrev bad_key : Jwk
bad_key = record {
  kty = "RSA";
  kid = "k2";
  alg = "";
  use_for = "";
  n = "AQ";
  e = "AAECAwQFBgcI";
  crv = "";
  x = "";
}

abbrev empty_verifier : Verifier
empty_verifier = record {
  issuer = "identity";
  audience = "";
  ttl = 600;
  keys = empty_map;
  fetched_at = 0;
  have_keys = false;
}

abbrev filled : Verifier
filled = record empty_verifier {
  keys = put empty_map "k1" (rsa 1 (pos 1));
  fetched_at = 3;
  have_keys = true;
}

abbrev ann_claims : Claims
ann_claims = record { subject = "u1"; issuer = "identity"; jti = "" }

verify-IsAccepted_example : IsAccepted codec empty_verifier filled 4 "h.p.s" ann_claims
unfolding verify key_for
verify-IsAccepted_example =
    verify-IsAccepted codec clock (some (key ∷ [])) "h.p.s" empty_verifier filled ann_claims refl

long_exponent_panics_example :
    key_for codec clock (some (key ∷ bad_key ∷ [])) "k1" empty_verifier
    ≡ (err panic, empty_verifier)
unfolding trim_right_equals
long_exponent_panics_example =
    long_exponent_panics codec clock bad_key (key ∷ []) [] (1 ∷ [])
      (0 ∷ 1 ∷ 2 ∷ 3 ∷ 4 ∷ 5 ∷ 6 ∷ 7 ∷ 8 ∷ []) "k1" empty_verifier refl refl refl (omega arith) refl

-- Identity with one key, and a token that it issued at the start of 1970.
abbrev identity_key : KeyPair
identity_key = record { kid = "k1"; priv = "p1"; public = "x" }

abbrev manager : Manager
manager = record {
  current = identity_key;
  previous = none;
  issuer = "identity";
  audience = "app";
  ttl = 900_000_000_000;
}

abbrev one_token : Jwt
one_token = record { sign = λ kid priv c. ok "h.p.s"; parse = λ o raw. err (failure "no") }

abbrev issued_at : ℕ
issued_at = epoch * second

abbrev thirty_two : List ℕ
thirty_two =
    1 ∷ 2 ∷ 3 ∷ 4 ∷ 5 ∷ 6 ∷ 7 ∷ 8 ∷ 9 ∷ 10 ∷ 11 ∷ 12 ∷ 13 ∷ 14 ∷ 15 ∷ 16 ∷ 17 ∷ 18 ∷ 19 ∷ 20 ∷ 21
    ∷ 22 ∷ 23 ∷ 24 ∷ 25 ∷ 26 ∷ 27 ∷ 28 ∷ 29 ∷ 30 ∷ 31 ∷ 32 ∷ []

abbrev token_object : GoMap String
token_object =
    put (put (put (put (put empty_map "sub" "u1") "iss" "identity") "aud" "[app]") "jti" "j1") "exp"
      "900"

abbrev ed_codec : Codec
ed_codec = record {
  decode_base64 = λ s. if s == "x" then some thirty_two else some (1 ∷ []);
  header_json = λ bs. some (record { alg = "EdDSA"; kid = "k1" });
  object_json = λ bs. some token_object;
  number_json = λ s. some (pos 900);
  string_json = λ s. if s == "[app]" then none else some s;
  strings_json = λ s. if s == "[app]" then some ("app" ∷ []) else none;
  sha256 = λ s. [];
  verify_rsa = λ n e digest sig. false;
  verify_ed25519 = λ x input sig. true;
}

token_IsCompact :
    IsCompact ed_codec thirty_two "k1" (claims_for manager "u1" "s1" issued_at "j1") "h.p.s"
unfolding claims_for lacks
token_IsCompact = record {
  header = "h";
  payload = "p";
  signature = "s";
  joined = refl;
  plain_header = refl;
  plain_payload = refl;
  plain_signature = refl;
  some_header = ground (arith, eq_iff "h" "");
  some_payload = ground (arith, eq_iff "p" "");
  some_signature = ground (arith, eq_iff "s" "");
  header_bytes = 1 ∷ [];
  header_decodes = refl;
  header_reads = refl;
  sig = 1 ∷ [];
  signature_decodes = refl;
  signs = refl;
  payload_bytes = 1 ∷ [];
  payload_decodes = refl;
  raw = token_object;
  payload_reads = refl;
  expires = 900;
  exp = "900";
  has_exp = refl;
  exp_number = refl;
  expires_at = refl;
  no_nbf = refl;
  aud = "[app]";
  has_aud = refl;
  aud_no_text = refl;
  aud_list = refl;
  iss = inr ("identity", refl, refl);
  sub = inr ("u1", refl, refl);
  jti = inr ("j1", refl, refl);
}

issued_accepted_example :
    (verify ed_codec clock
      (some (map published (jwks (λ s. s) manager)))
      "h.p.s"
      (new_verifier "identity" "app" 0)).0
    ≡ ok (record { subject = "u1"; issuer = "identity"; jti = "j1" })
unfolding issue trim_right_equals
issued_accepted_example =
    issued_accepted ed_codec (λ s. s) manager one_token thirty_two clock 0 issued_at 900 "j1" "u1"
      "s1" "h.p.s"
      (λ signed same.
        subst (IsCompact ed_codec thirty_two "k1" (claims_for manager "u1" "s1" issued_at "j1"))
          (cc) token_IsCompact)
      refl refl (λ kp none_kept. absurd (cc)) refl (ground (arith, eq_iff "u1" "")) (omega arith)

-- ===== src/Tests/Accounts.antt =====
-- Identity at concrete inputs.
use Prim.Native.String.{◌++◌}
use perfect_gift.Prelude.{
  ℕ, [], ◌∷◌, true, false, ◌≡◌, refl, none, some, ok, err, ltb, ◌==◌, eq_iff, arith, put, empty_map,
  if◌then◌else◌, is_space, is_blank,
}
use perfect_gift.Identity.Types.{Claims, User, External, failure}
use perfect_gift.Identity.Sessions.{get_session, put_session, Valkey, Stored}
use perfect_gift.Identity.Tokens.{KeyPair, Manager, Jwt, issue, verify, rotate, claims_for}
use perfect_gift.Identity.Tokens.Rotation.{issued_survives_rotation}
use perfect_gift.Identity.RefreshText.{split_refresh, has_dot}
use perfect_gift.Identity.Accounts.{Accounts, UserRow, upsert_oauth_user, row_by_email, row_by_id}
use perfect_gift.Identity.Messages.{Draw, SignInRequest, SignInResponse, TokenPair, email, google}
use perfect_gift.Identity.Server.{
  Server, refresh_token, sign_in_email, sign_in_social, to_proto_user, provider_name,
  reuse_detected, invalid_refresh,
}
use perfect_gift.Identity.Server.Refreshing.{at_time, replayed_token_revokes}
use perfect_gift.Identity.Server.SigningIn.{HasPassword, sign_in_email_needs_password}
use perfect_gift.Identity.Server.Linking.{sign_in_social_joins}

abbrev ann : User
ann = record { id = "u1"; email = "ann@x"; display_name = "Ann"; status = "active"; created_at = 0 }

-- A server that knows one account with the password "pw" and allows every attempt.
abbrev server : {W : Type 0} → Server W
server = record {
  users = record {
    upsert_oauth_user = λ provider subject e name w. (ok ann, w);
    get_by_id = λ id w. ok ann;
    get_by_email = λ e w. ok (some ann);
    create_email_user = λ e name hash w. (ok ann, w);
    get_password_hash = λ id w. ok (some "hash of pw");
  };
  sessions = record {
    create = λ s w. (none, w);
    get = λ id w. ok none;
    update = λ s w. (none, w);
    delete = λ id w. (none, w);
  };
  limiter = record { allow = λ key w. (ok true, w) };
  verify_id_token = λ provider raw w.
      ok (record { provider = provider; subject = "g1"; email = "ann@x"; email_verified = false });
  tokens = record {
    issue = λ user_id session w. ok ("access", 900);
    verify = λ raw w. err (failure "bad");
    jwks = λ w. [];
  };
  passwords = record {
    hash = λ p w. ok ("hash of " ++ p);
    verify = λ p h. ok (h == "hash of " ++ p);
  };
  refresh_ttl = 1000;
  sha256_hex = λ s. "sha " ++ s;
  to_lower = λ s. s;
  rfc3339 = λ t. "then";
  equal_fold = λ a b. a == b;
}

abbrev ann_session : Stored
ann_session = record {
  session = record {
    id = "s1";
    user_id = "u1";
    refresh_hash = "sha old";
    device = "phone";
    issued_at = 0;
    expires_at = 9_000_000_000;
  };
  deadline = 9_000_000_000;
}

abbrev one_session : Valkey
one_session = record { sessions = put empty_map "s1" ann_session; counters = empty_map }

abbrev refreshed : Valkey
refreshed = (refresh_token (at_time 5 server) 5 5 (some "new") "s1.old" one_session).1

abbrev new_pair : TokenPair
new_pair = record { access = "access"; refresh = "s1.new"; expires_in = 900 }

replayed_token_revokes_example :
    let replay = refresh_token (at_time 6 server) 6 6 none "s1.old" refreshed in
    (new_pair.refresh ≡ "s1.new")
    × (replay.0 ≡ err reuse_detected)
    × ((refresh_token (at_time 7 server) 7 7 (some "more") new_pair.refresh replay.1).0
        ≡ err invalid_refresh)
unfolding refresh_token has_dot split_refresh get_session put_session
replayed_token_revokes_example =
    replayed_token_revokes server 5 6 7 "s1" "old" "new" none (some "more") ann_session one_session
      refreshed new_pair refl (ground (arith, eq_iff "s1" "")) (ground (arith, eq_iff "old" ""))
      (ground (arith, eq_iff "new" "")) (ground (arith, eq_iff "sha old" "sha new")) refl refl
      (omega arith)

abbrev password_request : SignInRequest
password_request = record {
  provider = email;
  id_token = "";
  email = " ann@x";
  password = "pw";
  display_name = "";
  device = "phone";
}

abbrev drawn : Draw
drawn = record { now = 5; session_id = "s1"; secret = some "secret" }

abbrev signed_in_ann : SignInResponse
signed_in_ann = record {
  tokens = record { access = "access"; refresh = "s1.secret"; expires_in = 900 };
  user = record {
    id = "u1";
    email = "ann@x";
    display_name = "Ann";
    status = "active";
    created_at = "";
  };
}

sign_in_email_needs_password_example :
    (((server {W = ℕ}).limiter.allow "signin:ann@x" 0).0 ≡ ok true)
    × HasPassword (server {W = ℕ}) password_request ann 0
    × (signed_in_ann.user ≡ to_proto_user (server {W = ℕ}) ann)
unfolding sign_in_email is_space is_blank
sign_in_email_needs_password_example =
    sign_in_email_needs_password (server {W = ℕ}) drawn password_request ann 0 0 signed_in_ann refl
      refl

abbrev old_key : KeyPair
old_key = record { kid = "k1"; priv = "p1"; public = "public of p1" }

abbrev new_key : KeyPair
new_key = record { kid = "k2"; priv = "p2"; public = "public of p2" }

abbrev manager : Manager
manager = record {
  current = old_key;
  previous = none;
  issuer = "identity";
  audience = "app";
  ttl = 900_000_000_000;
}

-- A library whose one token has these claims.
abbrev one_token : Jwt
one_token = record {
  sign = λ kid priv c. ok "token";
  parse = λ o raw.
      if ltb o.now 900_000_000_000
      then ok (record { claims = claims_for manager "u1" "s1" 5 "j1"; valid = true })
      else err (failure "expired");
}

abbrev told : Claims
told = record {
  subject = "u1";
  session_id = "s1";
  issuer = "identity";
  audience = "app";
  issued_at = 0;
  expires_at = 900_000_000_000;
  jti = "j1";
}

issued_survives_rotation_example :
    (verify one_token manager 7 "token" ≡ ok told)
    × (verify one_token (rotate (some new_key) manager).1 7 "token" ≡ ok told)
unfolding issue claims_for
issued_survives_rotation_example =
    issued_survives_rotation one_token (λ p. "public of " ++ p) manager new_key "j1" "u1" "s1"
      "token" 5 7 900
      (λ signed o expiry signs found method issuer audience expires early. ground arith) refl
      (ground (arith, eq_iff "k2" "k1")) refl (omega arith)

abbrev ann_row : UserRow
ann_row = record {
  id = "u1";
  email = some "ann@x";
  display_name = "Ann";
  status = "active";
  created_at = 0;
}

abbrev accounts : Accounts
accounts = record {
  users = ann_row ∷ [];
  credentials = put empty_map "u1" "hash of pw";
  links = λ p. empty_map;
}

abbrev linked_accounts : Accounts
linked_accounts = (upsert_oauth_user (λ e. e) "u2" 5 "google" "g1" "ann@x" "" accounts).1

-- An identity whose e-mail the provider has not verified.
abbrev stranger : External
stranger = record { provider = "google"; subject = "g1"; email = "ann@x"; email_verified = false }

abbrev google_request : SignInRequest
google_request = record {
  provider = google;
  id_token = "token of the stranger";
  email = "";
  password = "";
  display_name = "";
  device = "phone";
}

sign_in_social_joins_example : signed_in_ann.user.id ≡ ann_row.id
unfolding sign_in_social provider_name row_by_email upsert_oauth_user row_by_id
sign_in_social_joins_example =
    sign_in_social_joins {V = ℕ} server (λ e. e) "u2" 5 drawn google_request stranger ann_row
      (accounts, 0) (linked_accounts, 0) signed_in_ann refl refl (ground (arith, eq_iff "ann@x" ""))
      refl refl

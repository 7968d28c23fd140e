-- ===== src/Identity/RefreshText.antt =====
-- splitRefresh of services/backend/identity/internal/app/identity_server.go: a refresh token is the
-- text of a session id, a dot and a secret.
use Prim.Native.Char.{Char, code}
use Prim.Native.String.append
use Prim.Native.String.{◌++◌}
use perfect_gift.Prelude.{
  String, Bool, false, ◌||◌, Option, none, some, eqb, ◌==◌, if◌then◌else◌, ◌≡◌, ◌≢◌, refl, arith,
  eq_iff,
}

-- The texts in front of and behind the first dot.
before_dot : Char → Option (String × String) → Option (String × String)
before_dot c none = none
before_dot c (some (sid, secret)) = some (String.◌∷◌ c sid, secret)

cut_dot : String → Option (String × String)
unfolding before_dot
cut_dot String.[] = none
cut_dot (String.◌∷◌ c s) =
    let rest = cut_dot s in if eqb (code c) b'.' then some ("", s) else before_dot c rest

both_parts : Option (String × String) → Option (String × String)
both_parts none = none
both_parts (some (sid, secret)) = if sid == "" || secret == "" then none else some (sid, secret)

unfoldable pub split_refresh : String → Option (String × String)
unfolding cut_dot both_parts
split_refresh t = both_parts (cut_dot t)

unfoldable pub has_dot : String → Bool
has_dot String.[] = false
has_dot (String.◌∷◌ c s) = eqb (code c) b'.' || has_dot s

cut_dot-append :
    (sid secret : String)
    → has_dot sid ≡ false
    → cut_dot (sid ++ "." ++ secret) ≡ some (sid, secret)
unfolding cut_dot has_dot
cut_dot-append String.[] secret h =
    rw (append.nil ("." ++ secret)) (rw (append.cons "." "" secret) (rw (append.nil secret) refl))
cut_dot-append (String.◌∷◌ c s) secret h =
    rw (append.cons c s ("." ++ secret)) (ground (arith, cut_dot-append s secret))

-- A session id without a dot and a secret, both not empty, are read back from their refresh token.
pub split_refresh-join :
    (sid secret : String)
    → has_dot sid ≡ false
    → sid ≢ ""
    → secret ≢ ""
    → split_refresh (sid ++ "." ++ secret) ≡ some (sid, secret)
unfolding split_refresh
split_refresh-join sid secret h some_sid some_secret =
    rw (cut_dot-append sid secret h) (ground (arith, eq_iff sid "", eq_iff secret ""))

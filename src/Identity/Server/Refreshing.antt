-- ===== src/Identity/Server/Refreshing.antt =====
-- A refresh over the sessions of the Valkey store, whose clock is an argument.
use Prim.Native.String.{◌++◌}
use perfect_gift.Prelude.{
  ℕ, ◌+◌, ◌*◌, ◌<◌, String, true, false, ◌≡◌, ◌≢◌, refl, sym, ap, ◌∙◌, Option, none, some, ok, err,
  Bool-cases, inl, inr, arith, eq_iff, eq_refl, ◌==◌, ltb, eqb, Result-cases, Option-cases,
}
use perfect_gift.Identity.Types.{Session}
use perfect_gift.Identity.RefreshText.{has_dot, split_refresh-join}
use perfect_gift.Identity.Sessions.{
  Valkey, Stored, session_store, get_session, put_session, delete_session, ttl_seconds, second,
}
use perfect_gift.Identity.Messages.{TokenPair}
use perfect_gift.Identity.Server.{
  Server, refresh_token, refresh_found, rotated, invalid_refresh, reuse_detected,
}

-- The session that is read under an id.
abbrev owned : String → Stored → Session
owned sid st = record st.session { id = sid }

-- The server over the store, when its clock shows t.
abbrev pub at_time : ℕ → Server Valkey → Server Valkey
at_time t s = record s { sessions = session_store t }

module _ (s : Server Valkey) (now at : ℕ) (fresh : Option String) (sid secret : String) (v : Valkey)
    (plain : has_dot sid ≡ false) (some_sid : sid ≢ "") (some_secret : secret ≢ "") where
  refresh-live :
      (t : ℕ) (st : Stored)
      → v.sessions sid ≡ some st
      → ltb t st.deadline ≡ true
      → refresh_token (at_time t s) now at fresh (sid ++ "." ++ secret) v
        ≡ refresh_found (at_time t s) now at fresh sid secret (owned sid st) v
  unfolding refresh_token get_session
  refresh-live t st known alive =
      rw (split_refresh-join sid secret plain some_sid some_secret) (rw known (rw alive refl))

  refresh-dead :
      (t : ℕ) (st : Stored)
      → v.sessions sid ≡ some st
      → ltb t st.deadline ≡ false
      → refresh_token (at_time t s) now at fresh (sid ++ "." ++ secret) v ≡ (err invalid_refresh, v)
  unfolding refresh_token get_session
  refresh-dead t st known gone =
      rw (split_refresh-join sid secret plain some_sid some_secret) (rw known (rw gone refl))

  refresh-missing :
      (t : ℕ)
      → v.sessions sid ≡ none
      → refresh_token (at_time t s) now at fresh (sid ++ "." ++ secret) v ≡ (err invalid_refresh, v)
  unfolding refresh_token get_session
  refresh-missing t gone =
      rw (split_refresh-join sid secret plain some_sid some_secret) (rw gone refl)

-- The session that a refresh writes.
abbrev renewed : Server Valkey → ℕ → String → Session → Session
renewed s at fresh sess = record sess { refresh_hash = s.sha256_hex fresh; issued_at = at }

abbrev kept_until : ℕ → Session → Stored
kept_until t sess = record { session = sess; deadline = t + ttl_seconds t sess * second }

put_session-ok :
    (t : ℕ) (sess : Session) (v : Valkey)
    → (put_session t sess v).0 ≡ none
    → (put_session t sess v).1.sessions sess.id ≡ some (kept_until t sess)
unfolding put_session
put_session-ok t sess v h = elim (Bool-cases (eqb (ttl_seconds t sess) 0)) [
  | inl refused ↦ absurd (ground arith)
  | inr taken ↦ rw taken (ground (arith, eq_refl sess.id))
]

-- A refresh that rotates has stored the new hash.
rotated-ok :
    (s : Server Valkey) (t at : ℕ) (fresh sid : String) (sess : Session) (v v' : Valkey)
    (pair : TokenPair)
    → rotated (at_time t s) at (some fresh) sid sess v ≡ (ok pair, v')
    → (pair.refresh ≡ sid ++ "." ++ fresh)
      × (v'.sessions sess.id ≡ some (kept_until t (renewed s at fresh sess)))
unfolding rotated
rotated-ok s t at fresh sid sess v v' pair h =
    let new = renewed s at fresh sess in
    let v1 = (put_session t new v).1 in
    elim (Option-cases (put_session t new v).0) [
      | inl stored ↦ elim (Result-cases (s.tokens.issue sess.user_id sid v1)) [
        | inl (issued, e) ↦ (ground arith, ground (arith, put_session-ok t new v))
        | inr (f, e) ↦ absurd (ground arith)
      ]
      | inr (f, e) ↦ absurd (ground arith)
    ]

refresh_found-ok :
    (s : Server Valkey) (t now at : ℕ) (fresh sid secret : String) (sess : Session) (v v' : Valkey)
    (pair : TokenPair)
    → refresh_found (at_time t s) now at (some fresh) sid secret sess v ≡ (ok pair, v')
    → (s.sha256_hex secret ≡ sess.refresh_hash)
      × (rotated (at_time t s) at (some fresh) sid sess v ≡ (ok pair, v'))
unfolding refresh_found
refresh_found-ok s t now at fresh sid secret sess v v' pair h =
    elim (Bool-cases (s.sha256_hex secret == sess.refresh_hash)) [
      | inl same ↦ elim (Bool-cases (ltb sess.expires_at now)) [
        | inl late ↦ absurd (ground arith)
        | inr early ↦ (ground (arith, eq_iff (s.sha256_hex secret) sess.refresh_hash), ground arith)
      ]
      | inr other ↦ absurd (ground arith)
    ]

-- An old secret, or one that was never drawn, ends the session.
refresh_found-stale :
    (s : Server Valkey) (t now at : ℕ) (later : Option String) (sid secret : String)
    (sess : Session) (v : Valkey)
    → s.sha256_hex secret ≢ sess.refresh_hash
    → refresh_found (at_time t s) now at later sid secret sess v
      ≡ (err reuse_detected, (delete_session sid v).1)
unfolding refresh_found
refresh_found-stale s t now at later sid secret sess v stale =
    ground (arith, eq_iff (s.sha256_hex secret) sess.refresh_hash)

delete_session-gone : (sid : String) (v : Valkey) → (delete_session sid v).1.sessions sid ≡ none
unfolding delete_session
delete_session-gone sid v = ground (arith, eq_refl sid)

-- A refresh token is good once. A refresh that answers ok answers a refresh token of the same
-- session with the new secret; presenting the old token again before the session's new deadline in
-- the store answers "reuse detected"; and from then on, at any time, the new refresh token is
-- refused too. Here the session id has no dot and is not empty, and the two secrets are not empty
-- and have different hashes.
pub replayed_token_revokes :
    (s : Server Valkey) (t t2 t3 : ℕ) (sid secret fresh : String) (later any_later : Option String)
    (st : Stored) (v v1 : Valkey) (pair : TokenPair)
    → has_dot sid ≡ false
    → sid ≢ ""
    → secret ≢ ""
    → fresh ≢ ""
    → s.sha256_hex secret ≢ s.sha256_hex fresh
    → v.sessions sid ≡ some st
    → refresh_token (at_time t s) t t (some fresh) (sid ++ "." ++ secret) v ≡ (ok pair, v1)
    → t2 < t + ttl_seconds t st.session * second
    → let replay = refresh_token (at_time t2 s) t2 t2 later (sid ++ "." ++ secret) v1 in
      (pair.refresh ≡ sid ++ "." ++ fresh)
      × (replay.0 ≡ err reuse_detected)
      × ((refresh_token (at_time t3 s) t3 t3 any_later pair.refresh replay.1).0
          ≡ err invalid_refresh)
unfolding ttl_seconds
replayed_token_revokes s t t2 t3 sid secret fresh later any_later st v v1 pair plain some_sid
      some_secret some_fresh differ known done early =
    elim (Bool-cases (ltb t st.deadline)) [
      | inr dead ↦
          let refused =
            refresh-dead s t t (some fresh) sid secret v plain some_sid some_secret t st known
              dead in
          absurd (cc)
      | inl alive ↦
          let live =
            refresh-live s t t (some fresh) sid secret v plain some_sid some_secret t st known
              alive in
          let (_, turned) =
            refresh_found-ok s t t t fresh sid secret (owned sid st) v v1 pair (sym live ∙ done) in
          let (token, stored) = rotated-ok s t t fresh sid (owned sid st) v v1 pair turned in
          let new = kept_until t (renewed s t fresh (owned sid st)) in
          let here : v1.sessions sid ≡ some new = stored in
          let again =
            refresh-live s t2 t2 later sid secret v1 plain some_sid some_secret t2 new here
              (ground arith)
            ∙ refresh_found-stale s t2 t2 t2 later sid secret new.session v1 differ in
          (
            token,
            ap (λ r. r.0) again,
            rw token (
                rw again (
                  ap (λ r. r.0)
                    (refresh-missing s t3 t3 any_later sid fresh (delete_session sid v1).1 plain
                      some_sid some_fresh t3 (delete_session-gone sid v1)))),
          )
    ]

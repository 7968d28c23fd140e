-- ===== src/Identity/Sessions.antt =====
-- The sessions of services/backend/identity/internal/domain/valkey/valkey.go: keys with a
-- deadline. The JSON comes back as it was; the server's clock is an argument. A time to live of 0
-- is refused by SET.
use perfect_gift.Prelude.{
  ℕ, ◌+◌, ◌-◌, ◌*◌, ◌/◌, String, Bool, Option, none, some, GoMap, put, Result, ok, Exec, Call, ltb,
  leb, eqb, ◌==◌, if◌then◌else◌,
}
use perfect_gift.Identity.Types.{Session, IdError, failure, SessionStore}

pub record Stored : Type 0 where
  pub session : Session
  pub deadline : ℕ

pub record Counter : Type 0 where
  pub count : ℕ
  pub deadline : Option ℕ

pub record Valkey : Type 0 where
  pub sessions : GoMap Stored
  pub counters : GoMap Counter

abbrev pub second : ℕ
second = 1_000_000_000

-- int64(ttl.Seconds()) of the session's remaining time, which is at least one second.
unfoldable pub ttl_seconds : ℕ → Session → ℕ
ttl_seconds now s = if leb s.expires_at now then 1 else (s.expires_at - now) / second

-- put, of Create and Update.
unfoldable pub put_session : ℕ → Session → Call Valkey IdError
unfolding ttl_seconds
put_session now s v =
    if eqb (ttl_seconds now s) 0
    then (some (failure "invalid expire time in 'set' command"), v)
    else (
      none,
      record v {
        sessions =
            put v.sessions s.id
              (record { session = s; deadline = now + ttl_seconds now s * second });
      },
    )

-- The id is not in the value: it is the key's.
live : ℕ → String → Option Stored → Option Session
live now id none = none
live now id (some st) = if ltb now st.deadline then some (record st.session { id = id }) else none

unfoldable pub get_session : ℕ → String → Valkey → Result IdError (Option Session)
unfolding live
get_session now id v = ok (live now id (v.sessions id))

-- m without a key
abbrev pub remove : {V : Type 0} → GoMap V → String → GoMap V
remove m k j = if k == j then none else m j

unfoldable pub delete_session : String → Call Valkey IdError
delete_session id v = (none, record v { sessions = remove v.sessions id })

counted : ℕ → Option Counter → Counter
counted now none = record { count = 1; deadline = none }
counted now (some c) = elim c.deadline [
  | none ↦ record { count = c.count + 1; deadline = none }
  | some end ↦
      if ltb now end
      then record { count = c.count + 1; deadline = some end }
      else record { count = 1; deadline = none }
]

-- The window of EXPIRE, in whole seconds.
windowed : ℕ → ℕ → Counter → Counter
windowed now window c =
    if eqb c.count 1 then record c { deadline = some (now + window * second) } else c

-- Allow: INCR, then EXPIRE on the first attempt.
unfoldable pub allow : ℕ → ℕ → ℕ → String → Exec Valkey IdError Bool
unfolding counted windowed
allow now max window key v =
    let c = windowed now window (counted now (v.counters key)) in
    (ok (leb c.count max), record v { counters = put v.counters key c })

-- The store as the server's Sessions, at a time.
abbrev pub session_store : ℕ → SessionStore Valkey
session_store now = record {
  create = put_session now;
  get = get_session now;
  update = put_session now;
  delete = delete_session;
}

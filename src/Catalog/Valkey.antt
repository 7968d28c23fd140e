-- ===== src/Catalog/Valkey.antt =====
-- services/backend/catalog/internal/domain/valkey/valkey.go: the cache of reference reads. A
-- command fails while the server is down, and SET with EX 0 always does. Invalidate scans page
-- after page; a page is a list of keys and the next cursor, 0 at the end. An error is its text
-- without that of the cause.
use Prim.Native.String.{◌++◌ as ◌<>◌}
use perfect_gift.Prelude.{
  ℕ, zero, suc, ◌+◌, ◌*◌, ◌/◌, String, Bool, Option, none, some, List, [], ◌∷◌, Result, ok, err,
  Call, GoMap, put, eqb, leb, ◌==◌, not, if◌then◌else◌,
}

pub record Cached : Type 0 where
  pub payload : String
  pub expires_at : ℕ

-- The server behind the client, with its clock.
pub record Valkey : Type 0 where
  pub entries : GoMap Cached
  pub up : Bool
  pub now : ℕ

abbrev pub ref_prefix : String
ref_prefix = "catalog:ref:"

abbrev second : ℕ
second = 1000000000

unfoldable pub live : ℕ → Option Cached → Option String
live now none = none
live now (some c) = if leb c.expires_at now then none else some c.payload

unfoldable pub decoded : {A : Type 0} → String → Option A → Result String (Option A)
decoded key none = err ("unmarshal cached " <> key)
decoded key (some a) = ok (some a)

unfoldable pub found :
    {A : Type 0} → (String → Option A) → String → Option String → Result String (Option A)
unfolding decoded
found decode key none = ok none
found decode key (some text) = decoded key (decode text)

-- GetJSON
unfoldable pub get_json :
    {A : Type 0} → (String → Option A) → String → Valkey → Result String (Option A)
unfolding live found
get_json decode key v =
    if v.up
    then found decode key (live v.now (v.entries (ref_prefix <> key)))
    else err "connection refused"

-- SetJSON
unfoldable pub set_json : String → Option String → ℕ → Call Valkey String
set_json key none ttl v = (some ("marshal " <> key), v)
set_json key (some text) ttl v =
    if not v.up
    then (some "connection refused", v)
    else if eqb (ttl / second) 0
    then (some "invalid expire time", v)
    else (
      none,
      record v {
        entries =
            put v.entries (ref_prefix <> key)
              (record { payload = text; expires_at = v.now + ttl / second * second });
      },
    )

unfoldable pub delete_all : List String → GoMap Cached → GoMap Cached
delete_all [] m j = m j
delete_all (k ∷ ks) m j = if k == j then none else delete_all ks m j

-- Invalidate, on the answers of SCAN by cursor
module _ (scan : ℕ → Valkey → List String × ℕ) where
  unfoldable pub invalidate_from : ℕ → ℕ → Call Valkey String
  unfolding delete_all
  invalidate_from zero cursor v = (some "out of fuel", v)
  invalidate_from (suc fuel) cursor v =
      let page = scan cursor v in
      let w = record v { entries = delete_all page.0 v.entries } in
      let rest = invalidate_from fuel page.1 w in
      if not v.up then (some "connection refused", v) else if eqb page.1 0 then (none, w) else rest

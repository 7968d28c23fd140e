-- ===== src/Gateway/RateLimit.antt =====
-- services/backend/api-gateway/internal/ratelimit/limiter.go: the fixed-window limiter. Its mutex
-- makes Allow one step; the reading of the clock is an argument. A negative limit is read as 0
-- here.
pub mod Bounds
use perfect_gift.Prelude.{
  ℕ, ◌+◌, String, Bool, true, false, Option, none, some, GoMap, put, empty_map, eqb, ltb, leb,
  if◌then◌else◌,
}

pub record Bucket : Type 0 where
  pub count : ℕ
  pub window_ends : ℕ

-- Durations in nanoseconds, times as nanoseconds since year 1.
pub record Window : Type 0 where
  pub limit : ℕ
  pub window : ℕ
  pub buckets : GoMap Bucket

unfoldable pub new_window : ℕ → ℕ → Window
new_window limit window = record { limit = limit; window = window; buckets = empty_map }

-- A bucket for a key that has none, or whose bucket has ended.
open_bucket : String → ℕ → Window → Bool × Window
open_bucket key now w = (
  true,
  record w { buckets = put w.buckets key (record { count = 1; window_ends = now + w.window }) },
)

count_call : String → Bucket → Window → Bool × Window
count_call key b w =
    if leb w.limit b.count
    then (false, w)
    else (true, record w { buckets = put w.buckets key (record b { count = b.count + 1 }) })

-- time.Time.After is `ltb` the other way round.
in_bucket : String → ℕ → Window → Option Bucket → Bool × Window
unfolding open_bucket count_call
in_bucket key now w none = open_bucket key now w
in_bucket key now w (some b) =
    if ltb b.window_ends now then open_bucket key now w else count_call key b w

-- Allow
unfoldable pub allow : String → ℕ → Window → Bool × Window
unfolding in_bucket
allow key now w = if eqb w.limit 0 then (true, w) else in_bucket key now w (w.buckets key)

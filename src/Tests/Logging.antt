-- ===== src/Tests/Logging.antt =====
-- Runs of the log shipping kit, against a log server that is up or down.
use Prim.Native.String.{String}
use perfect_gift.Prelude.{
  ◌⊎◌, ℕ, zero, suc, ◌≤◌, ◌<◌, ◌≡◌, refl, arith, true, false, none, some, List, [], ◌∷◌, ◌++◌,
  bytes, rune_len,
}
use perfect_gift.Logkit.Record.{Record}
use perfect_gift.Logkit.Options.{positive_or, Options, with_defaults}
use perfect_gift.Logkit.Posting.{Shipper, lines, file_size, new_shipper}
use perfect_gift.Logkit.Spool.{decode, encode, spool_append, max_line, cons_line}
use perfect_gift.Logkit.Shipper.{
  Event, logged, received, flush_tick, closed, outside_changed, flush, run, drain_spool,
}
use perfect_gift.Logkit.Transport.{heads}
use perfect_gift.Logkit.Plain.{IsPlain}
use perfect_gift.Logkit.Flushing.{flush_delivers}
use perfect_gift.Logkit.Bounded.{IsBounded, run-IsBounded}
use perfect_gift.Logkit.Capped.{IsNewest, spool_append-IsNewest}
use perfect_gift.Logkit.Overlong.{drain_spool_overlong}
use perfect_gift.Logkit.Handler.{
  Handler, plain, group, also, done, build_fields, new_handler, with_group,
}
use perfect_gift.Logkit.Nesting.{leaf_under, written_over, build_fields_last}
use perfect_gift.Tests.Network.{
  started, IsStarted, Net, net, net-IsTransport, net-IsHealthy, IsUp, defaults,
}

abbrev waiting : Shipper Net
waiting = record {
  queue = started ∷ [];
  batch = started ∷ started ∷ [];
  spool = some ("r" ∷ "r" ∷ []);
  dropped = 3;
  running = true;
  outside = record { up = true; seen = [] };
}

waiting-written : lines waiting.spool ≡ encode net (with_defaults defaults) (started ∷ started ∷ [])
unfolding encode cons_line
waiting-written = refl

abbrev waiting_plain : IsPlain net (with_defaults defaults) IsStarted waiting
waiting_plain = record {
  queue_All = (refl, tt);
  batch_All = (refl, (refl, tt));
  spooled = started ∷ started ∷ [];
  spooled_All = (refl, (refl, tt));
  written = waiting-written;
}

IsUp-now : IsUp waiting.outside
unfolding IsUp
IsUp-now = refl

batch_size-positive : 0 < (with_defaults defaults).batch_size
unfolding with_defaults positive_or
batch_size-positive = omega arith

abbrev flushed : Shipper Net
flushed = flush net (with_defaults defaults) waiting

flush_delivers_example :
    (flushed.queue ≡ [])
    × (flushed.batch ≡ [])
    × (lines flushed.spool ≡ [])
    × (flushed.dropped ≡ 3)
    × (flushed.outside.seen
        ≡ [] ++ (heads (waiting.batch ++ waiting.queue) ++ heads waiting_plain.spooled))
flush_delivers_example =
    flush_delivers net (with_defaults defaults) net-IsTransport IsUp net-IsHealthy
      batch_size-positive waiting waiting_plain IsUp-now

run-IsBounded_example : IsBounded (with_defaults defaults) (
    run net
      (with_defaults defaults)
      (logged started ∷ received ∷ closed ∷ [])
      (new_shipper (record { up = false; seen = [] }) none))
run-IsBounded_example =
    run-IsBounded net defaults (logged started ∷ received ∷ closed ∷ [])
      (record { up = false; seen = [] }) none

-- Four bytes are enough for two lines.
abbrev tight : Options
tight = record (with_defaults defaults) { spool_max_bytes = 4 }

abbrev appended : Shipper Net
appended = spool_append net tight (started ∷ []) waiting

small : file_size (lines waiting.spool) ≤ 4
unfolding bytes rune_len
small = omega arith

spool_append-IsNewest_example :
    (file_size (lines appended.spool) ≤ 4)
    × ((lines appended.spool ≡ lines waiting.spool ++ encode net tight (started ∷ []))
        ⊎ ((kept : List Record) × (lines appended.spool ≡ encode net tight kept)
            × IsNewest net tight
                (decode net tight (lines waiting.spool ++ encode net tight (started ∷ [])))
                kept))
spool_append-IsNewest_example =
    spool_append-IsNewest net tight (started ∷ []) waiting
      (record {
        appends = refl;
        writes = λ file ls. refl;
        reads = refl;
        creates = refl;
        renames = refl;
        removes = refl;
      })
      small

-- The log server goes down, comes back, and the loop is closed.
abbrev outage : List (Event Net)
outage =
    logged started
    ∷ received
    ∷ outside_changed (λ s. record s { up = false })
    ∷ flush_tick
    ∷ logged started
    ∷ outside_changed (λ s. record s { up = true })
    ∷ closed
    ∷ []

-- A line as long as is asked.
long_line : ℕ → String
long_line zero = String.[]
long_line (suc n) = String.◌∷◌ "x" (long_line n)

bytes-long_line : (n : ℕ) → bytes (long_line n) ≡ n
unfolding bytes rune_len long_line
bytes-long_line zero = refl
bytes-long_line (suc n) = omega (arith, bytes-long_line n)

max_line-le-long_line : max_line ≤ bytes (long_line max_line)
max_line-le-long_line = omega (arith, bytes-long_line max_line)

abbrev blocked : Shipper Net
blocked = record waiting { spool = some ("r" ∷ long_line max_line ∷ "r" ∷ []) }

blocked-lines :
    lines blocked.spool
    ≡ encode net (with_defaults defaults) (started ∷ []) ++ long_line max_line ∷ "r" ∷ []
unfolding encode cons_line
blocked-lines = refl

drain_spool_overlong_example :
    (s : Net) × (drain_spool net (with_defaults defaults) blocked
      ≡ record blocked { spool = none; outside = s })
    × (s.seen ≡ [] ++ heads (started ∷ []))
drain_spool_overlong_example =
    drain_spool_overlong net (with_defaults defaults) net-IsTransport (long_line max_line)
      ("r" ∷ []) max_line-le-long_line IsUp net-IsHealthy batch_size-positive blocked started []
      IsUp-now (refl, tt) blocked-lines

abbrev in_group : Handler
in_group = with_group "http" (new_handler "poll" defaults)

build_fields_last_example :
    leaf_under
      (build_fields in_group
        (plain "status" "200" ∷ [] ++ group "http" (also (plain "status" "404") done) ∷ []))
      (in_group.groups ++ "http" ∷ [])
      "status"
    ≡ written_over (group "http" (also (plain "status" "404") done)) ("http" ∷ []) "status" (
        leaf_under
          (build_fields in_group (plain "status" "200" ∷ []))
          (in_group.groups ++ "http" ∷ [])
          "status")
build_fields_last_example =
    build_fields_last in_group (plain "status" "200" ∷ [])
      (group "http" (also (plain "status" "404") done)) ("http" ∷ []) "status"

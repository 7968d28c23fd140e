-- ===== src/Tests/Network.antt =====
-- A log server that is up or down, and all records alike.
use Prim.Native.String.{String}
use perfect_gift.Prelude.{
  ◌≡◌, refl, ap, sym, arith, Bool, true, none, some, List, [], ◌∷◌, ◌++◌, All, if◌then◌else◌, bytes,
  rune_len, trim_space, trim_left, trim_right, is_blank, is_space, Bool-cases, inl, inr,
}
use mathlib.Core.List.{append-nil}
use perfect_gift.Logkit.Record.{Record, nil}
use perfect_gift.Logkit.Options.{Options, with_defaults}
use perfect_gift.Logkit.Posting.{Outside, is_success, post, post_body}
use perfect_gift.Logkit.Transport.{Head, head, heads, IsTransport}
use perfect_gift.Logkit.Flushing.{IsHealthy}

abbrev pub started : Record
started = record {
  ts = "t";
  level = "INFO";
  service = "poll";
  message = "started";
  trace_id = "";
  span_id = "";
  fields = nil;
}

abbrev pub IsStarted : Record → Type 0
IsStarted r = r ≡ started

pub record Net : Type 0 where
  pub up : Bool
  pub seen : List Head

-- A body is a letter for each record.
unfoldable pub letters : List Record → String
letters [] = String.[]
letters (r ∷ rs) = String.◌∷◌ "r" (letters rs)

unfoldable pub heads_of : String → List Head
heads_of String.[] = []
heads_of (String.◌∷◌ _ s) = head started ∷ heads_of s

heads_of-letters : (rs : List Record) → All IsStarted rs → heads_of (letters rs) ≡ heads rs
unfolding heads_of letters
heads_of-letters [] _ = refl
heads_of-letters (r ∷ rs) (e, es) = rw e (ap (λ k. head started ∷ k) (heads_of-letters rs es))

abbrev pub net : Outside Net
net = record {
  marshal_record = λ r. some "r";
  unmarshal_record = λ l. some started;
  marshal_body = λ rs. some (letters rs);
  is_url = λ url. true;
  do_post = λ url body s.
      if s.up then (some 200, record s { seen = s.seen ++ heads_of body }) else (none, s);
  opens_append = λ s. true;
  writes = λ file ls s. file ++ ls;
  opens_read = λ s. true;
  creates = λ s. true;
  renames = λ s. true;
  removes = λ s. true;
}

pub net-IsTransport : IsTransport net IsStarted 8 (λ s. s.seen)
unfolding bytes rune_len is_success trim_space trim_left trim_right is_blank is_space
net-IsTransport = record {
  readable = omega arith;
  has_line = λ r e. ("r", started, refl, refl, refl, ap head (sym e), refl, refl, ground arith);
  stores = λ rs url body s ps e h. elim (Bool-cases s.up) [
    | inl u ↦ ground (arith, heads_of-letters rs ps, h)
    | inr u ↦ absurd (ground arith)
  ];
  remembers = λ url body s. elim (Bool-cases s.up) [
    | inl u ↦ (heads_of body, ground arith)
    | inr u ↦ ([], ground (arith, append-nil s.seen))
  ];
}

abbrev pub defaults : Options
defaults = record {
  server_url = "http://log-server:8080";
  spool_dir = "";
  level = 4;
  batch_size = 0;
  flush_interval = 0;
  queue_size = 0;
  http_timeout = 0;
  retry_interval = 0;
  spool_max_bytes = 0;
}

unfoldable pub IsUp : Net → Type 0
IsUp s = s.up ≡ true

pub net-IsHealthy : IsHealthy net (with_defaults defaults) IsStarted IsUp
unfolding IsUp post post_body is_success
net-IsHealthy = record {
  accepts = λ rs s ps h. (ground arith, ground arith);
  reads = λ s h. refl;
  removes = λ s h. refl;
}

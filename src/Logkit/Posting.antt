-- ===== src/Logkit/Posting.antt =====
-- pkg/logkit/shipper.go: what the shipper stands on, its state, and the posting of records.
use Prim.Native.String.{◌++◌ as ◌<>◌}
use perfect_gift.Prelude.{
  ◌≡◌, ℕ, zero, suc, ◌+◌, String, Bool, true, false, Option, none, some, List, [], ◌∷◌, ◌++◌, take,
  drop, ltb, leb, ◌&&◌, if◌then◌else◌, trim_right_slash, bytes,
}
use perfect_gift.Logkit.Record.{Record}
use perfect_gift.Logkit.Options.{Options}

-- The process, the network and the disk: S is what they are in.
pub record Outside (S : Type 0) : Type 0 where
  pub marshal_record : Record → Option String
  pub unmarshal_record : String → Option Record
  pub marshal_body : List Record → Option String
  -- http.NewRequest on the endpoint
  pub is_url : String → Bool
  -- HTTPClient.Do of a POST: the status of the response, or none for a transport error
  pub do_post : String → String → S → Option ℕ × S
  pub opens_append : S → Bool
  -- The lines of a file after lines have been written at its end, with errors of Write, Flush and
  -- Close ignored: all of them on a disk that takes them, and whatever got through on another.
  pub writes : List String → List String → S → List String
  pub opens_read : S → Bool
  pub creates : S → Bool
  pub renames : S → Bool
  pub removes : S → Bool

-- The shipper, with the batch of the loop, the spool file, and whether the loop runs.
pub record Shipper (S : Type 0) : Type 0 where
  pub queue : List Record
  pub batch : List Record
  pub spool : Option (List String)
  pub dropped : ℕ
  pub running : Bool
  pub outside : S

-- A write to a file that is open keeps every line.
abbrev pub WritesAll : {S : Type 0} → Outside S → Type 0
WritesAll {S} out = (file ls : List String) (s : S) → out.writes file ls s ≡ file ++ ls

abbrev pub lines : Option (List String) → List String
lines none = []
lines (some ls) = ls

-- The size of the file: a line ends in '\n'.
abbrev pub file_size : List String → ℕ
file_size [] = 0
file_size (l ∷ ls) = bytes l + 1 + file_size ls

module _ {S : Type 0} where
  -- newShipper
  unfoldable pub new_shipper : S → Option (List String) → Shipper S
  new_shipper outside spool = record {
    queue = [];
    batch = [];
    spool = spool;
    dropped = 0;
    running = true;
    outside = outside;
  }

  -- drainQueue, on a channel that nobody sends to meanwhile
  unfoldable pub drain_queue : Shipper S → Shipper S
  drain_queue w = record w { batch = w.batch ++ w.queue; queue = [] }

unfoldable pub is_success : Option ℕ → Bool
is_success none = false
is_success (some code) = leb 200 code && ltb code 300

module _ {S : Type 0} (out : Outside S) (opts : Options) where
  unfoldable pub endpoint : String
  endpoint = trim_right_slash opts.server_url <> "/api/ingest"

  unfoldable pub post_body : Option String → S → Bool × S
  unfolding is_success endpoint
  post_body none s = (false, s)
  post_body (some body) s =
      if out.is_url endpoint
      then (is_success (out.do_post endpoint body s).0, (out.do_post endpoint body s).1)
      else (false, s)

  -- post: whether the records were delivered
  unfoldable pub post : List Record → S → Bool × S
  unfolding post_body
  post rs s = post_body (out.marshal_body rs) s

  -- The loop of send and of drainSpool: chunk after chunk is posted until one fails. The answer
  -- is what is left.
  unfoldable pub post_chunks : ℕ → List Record → S → List Record × S
  post_chunks fuel [] s = ([], s)
  post_chunks zero (r ∷ rs) s = (r ∷ rs, s)
  post_chunks (suc fuel) (r ∷ rs) s = elim (post (take opts.batch_size (r ∷ rs)) s).0 [
    | true ↦
        post_chunks fuel (drop opts.batch_size (r ∷ rs)) (post (take opts.batch_size (r ∷ rs)) s).1
    | false ↦ (r ∷ rs, (post (take opts.batch_size (r ∷ rs)) s).1)
  ]

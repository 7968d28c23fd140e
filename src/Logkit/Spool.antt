-- ===== src/Logkit/Spool.antt =====
-- pkg/logkit/shipper.go: the spool file. A file is its list of lines. What a write
-- to an open file leaves in it is up to the disk: its errors are ignored.
use perfect_gift.Prelude.{
  ℕ, ◌+◌, ◌-◌, ◌*◌, String, Option, none, some, List, [], ◌∷◌, length, ltb, leb, ◌==◌, ◌&&◌,
  if◌then◌else◌, trim_space, bytes,
}
use perfect_gift.Logkit.Record.{Record}
use perfect_gift.Logkit.Options.{Options}
use perfect_gift.Logkit.Posting.{Outside, Shipper, lines, file_size}

-- The largest token of the scanner.
abbrev pub max_line : ℕ
max_line = 8 * 1024 * 1024

module _ {S : Type 0} (out : Outside S) (opts : Options) where
  unfoldable pub cons_line : Option String → List String → List String
  cons_line none ls = ls
  cons_line (some l) ls = l ∷ ls

  -- The lines that spoolAppend and spoolRewrite write.
  unfoldable pub encode : List Record → List String
  unfolding cons_line
  encode [] = []
  encode (r ∷ rs) = cons_line (out.marshal_record r) (encode rs)

  unfoldable pub cons_record : Option Record → List Record → List Record
  cons_record none rs = rs
  cons_record (some r) rs = r ∷ rs

  -- One line of the scanner, already trimmed.
  unfoldable pub decode_line : String → List Record → List Record
  unfolding cons_record
  decode_line l rs = if l == "" then rs else cons_record (out.unmarshal_record l) rs

  -- The scanner ends at a line that is too long.
  unfoldable pub decode : List String → List Record
  unfolding decode_line
  decode [] = []
  decode (l ∷ ls) =
      let rest = decode ls in if ltb (bytes l) max_line then decode_line (trim_space l) rest else []

  -- spoolRead
  unfoldable pub spool_read : Shipper S → List Record
  spool_read w = if out.opens_read w.outside then decode (lines w.spool) else []

  -- spoolRewrite
  unfoldable pub spool_rewrite : List Record → Shipper S → Shipper S
  spool_rewrite [] w = if out.removes w.outside then record w { spool = none } else w
  spool_rewrite (r ∷ rs) w =
      if out.creates w.outside && out.renames w.outside
      then record w { spool = some (out.writes [] (encode (r ∷ rs)) w.outside) }
      else w

  unfoldable pub marshalled_size : Option String → ℕ
  marshalled_size none = 0
  marshalled_size (some l) = bytes l + 1

  unfoldable pub line_size : Record → ℕ
  unfolding marshalled_size
  line_size r = marshalled_size (out.marshal_record r)

  unfoldable pub sum_sizes : List Record → ℕ
  unfolding line_size
  sum_sizes [] = 0
  sum_sizes (r ∷ rs) = line_size r + sum_sizes rs

  -- The second loop of enforceCap: `size` is the size of the records that are left.
  unfoldable pub drop_oldest : ℕ → List Record → List Record
  unfolding line_size
  drop_oldest size [] = []
  drop_oldest size (r ∷ rs) =
      let rest = drop_oldest (size - line_size r) rs in
      if ltb opts.spool_max_bytes size then rest else r ∷ rs

  -- enforceCap
  unfoldable pub enforce_cap : Shipper S → Shipper S
  unfolding sum_sizes drop_oldest
  enforce_cap w =
      if leb (file_size (lines w.spool)) opts.spool_max_bytes
      then w
      else spool_rewrite (drop_oldest (sum_sizes (spool_read w)) (spool_read w)) w

  -- spoolAppend
  unfoldable pub spool_append : List Record → Shipper S → Shipper S
  spool_append [] w = w
  spool_append (r ∷ rs) w =
      if out.opens_append w.outside
      then enforce_cap
          (record w { spool = some (out.writes (lines w.spool) (encode (r ∷ rs)) w.outside) })
      else record w { dropped = w.dropped + length (r ∷ rs) }

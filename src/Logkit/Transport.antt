-- ===== src/Logkit/Transport.antt =====
-- What the shipper relies on: encoding/json brings the texts of a record back, and a log server
-- that answers 2xx has stored the records of the body. The fields of a record may change on the
-- way, since a number in them is read back as a float64.
use perfect_gift.Prelude.{
  ℕ, ◌≤◌, ◌<◌, ◌≡◌, refl, ap, ap₂, ◌∙◌, arith, String, true, false, some, List, [], ◌∷◌, ◌++◌, map,
  All, bytes, trim_space, ◌==◌,
}
use perfect_gift.Logkit.Record.{Record}
use perfect_gift.Logkit.Options.{Options}
use perfect_gift.Logkit.Posting.{Outside, is_success}
use perfect_gift.Logkit.Spool.{max_line, encode, decode}

-- The texts of a record: all but its fields.
pub record Head : Type 0 where
  pub ts : String
  pub level : String
  pub service : String
  pub message : String
  pub trace_id : String
  pub span_id : String

abbrev pub head : Record → Head
head r = record {
  ts = r.ts;
  level = r.level;
  service = r.service;
  message = r.message;
  trace_id = r.trace_id;
  span_id = r.span_id;
}

abbrev pub heads : List Record → List Head
heads = map head

-- Its line in the spool, and the record that is read from it.
abbrev pub HasLine : {S : Type 0} → Outside S → (Record → Type 0) → ℕ → Record → Type 0
HasLine out P limit r =
    (l : String) × (q : Record) × (out.marshal_record r ≡ some l)
    × (out.unmarshal_record l ≡ some q)
    × (P q)
    × (head q ≡ head r)
    × (trim_space l ≡ l)
    × ((l == "") ≡ false)
    × (bytes l < limit)

-- Of the records in P, with lines shorter than `limit`; `stored` is what the log server has.
pub record IsTransport {S : Type 0} (out : Outside S) (P : Record → Type 0) (limit : ℕ)
    (stored : S → List Head) : Type 0 where
  pub readable : limit ≤ max_line
  pub has_line : (r : Record) → P r → HasLine out P limit r
  pub stores :
      (rs : List Record) (url body : String) (s : S)
      → All P rs
      → out.marshal_body rs ≡ some body
      → is_success (out.do_post url body s).0 ≡ true
      → stored (out.do_post url body s).1 ≡ stored s ++ heads rs
  pub remembers :
      (url body : String) (s : S)
      → (more : List Head) × (stored (out.do_post url body s).1 ≡ stored s ++ more)

module _ {S : Type 0} (out : Outside S) (opts : Options) {P : Record → Type 0} {limit : ℕ}
    {stored : S → List Head} (t : IsTransport out P limit stored) where
  -- What is read from the lines that were written.
  pub decode-encode :
      (rs : List Record)
      → All P rs
      → (All P (decode out opts (encode out opts rs)))
        × (heads (decode out opts (encode out opts rs)) ≡ heads rs)
  unfolding encode decode
  decode-encode [] _ = (tt, refl)
  decode-encode (r ∷ rs) (p, ps) =
      let (l, q, m, u, pq, h, trimmed, full, short) = t.has_line r p in
      let (qs, hs) = decode-encode rs ps in
      let step : decode out opts (encode out opts (r ∷ rs))
          ≡ q ∷ decode out opts (encode out opts rs) =
        ground (arith, t.readable) in
      (rw step (pq, qs), ap heads step ∙ ap₂ (λ x y. x ∷ y) h hs)

-- ===== src/Logkit/Tally.antt =====
-- Counting the records that pass a test, wherever they are: stored by the log server, in the
-- spool, in the batch, in the queue, or counted as dropped.
use mathlib.Core.List.{map-append}
use perfect_gift.Prelude.{
  ◌&&◌, ℕ, zero, suc, ◌+◌, ◌*◌, ◌≤◌, ◌≡◌, refl, ap, sym, subst, ◌∙◌, arith, String, Bool, true,
  Option, none, some, List, [], ◌∷◌, ◌++◌, length, Bool-cases, Option-cases, inl, inr, keep,
  length-append, length-map, length-keep-le, All, All-append,
}
use perfect_gift.Logkit.Record.{Record}
use perfect_gift.Logkit.Options.{Options}
use perfect_gift.Logkit.Posting.{WritesAll, Outside, Shipper, lines, file_size}
use perfect_gift.Logkit.Spool.{
  enforce_cap, encode, spool_rewrite, spool_append, cons_line, sum_sizes, line_size,
  marshalled_size,
}
use perfect_gift.Logkit.Transport.{Head, head, heads, IsTransport}
use perfect_gift.Logkit.Plain.{IsPlain}
use perfect_gift.Logkit.Capped.{enforce_cap_fits, file_size-encode}

module _ (p : Head → Bool) where
  abbrev pub count : List Head → ℕ
  count xs = length (keep p xs)

  pub count-append : (xs ys : List Head) → count (xs ++ ys) ≡ count xs + count ys
  count-append [] ys = omega arith
  count-append (x ∷ xs) ys = ground (arith, count-append xs ys)

  pub count-heads-append :
      (xs ys : List Record) → count (heads (xs ++ ys)) ≡ count (heads xs) + count (heads ys)
  count-heads-append xs ys = ap count (map-append _ xs ys) ∙ count-append (heads xs) (heads ys)

  pub count-heads-le : (xs : List Record) → count (heads xs) ≤ length xs
  count-heads-le xs = omega (arith, length-keep-le p (heads xs), length-map head xs)

pub scaled : (a m n : ℕ) → m ≤ n → a * m ≤ a * n
scaled zero m n h = omega arith
scaled (suc a) m n h = omega (arith, scaled a m n h)

encode-append :
    {S : Type 0} (out : Outside S) (opts : Options) (xs ys : List Record)
    → encode out opts (xs ++ ys) ≡ encode out opts xs ++ encode out opts ys
unfolding encode cons_line
encode-append out opts [] ys = refl
encode-append out opts (x ∷ xs) ys = elim (Option-cases (out.marshal_record x)) [
  | inl e ↦ ground (arith, encode-append out opts xs ys)
  | inr (l, e) ↦ ground (arith, encode-append out opts xs ys)
]

module _ {S : Type 0} (out : Outside S) (opts : Options) {P : Record → Type 0} {limit : ℕ}
    {stored : S → List Head} (t : IsTransport out P limit stored) (p : Head → Bool) where
  -- What the shipper holds, and all that is accounted for.
  abbrev pub held : {w : Shipper S} → IsPlain out opts P w → ℕ
  held {w} plain = length plain.spooled + length w.batch + length w.queue

  abbrev pub tally : {w : Shipper S} → IsPlain out opts P w → ℕ
  tally {w} plain =
      count p (stored w.outside)
      + count p (heads plain.spooled)
      + count p (heads w.batch)
      + count p (heads w.queue)
      + w.dropped

  -- From w to v nothing is lost: `gain` records came in that pass the test, and at most `extra`.
  pub record IsKept (w v : Shipper S) (plain : IsPlain out opts P w) (gain extra : ℕ) : Type 0 where
    pub plain_after : IsPlain out opts P v
    pub counted : gain + tally plain ≤ tally plain_after
    pub grown : held plain_after ≤ held plain + extra

  sum_sizes-le : (rs : List Record) → All P rs → sum_sizes out opts rs ≤ limit * length rs
  unfolding sum_sizes line_size marshalled_size
  sum_sizes-le [] _ = omega arith
  sum_sizes-le (r ∷ rs) (pr, ps) =
      let (l, q, m, u, pq, h, trimmed, full, short) = t.has_line r pr in
      ground (arith, sum_sizes-le rs ps)

  pub IsKept-stays : (w : Shipper S) (plain : IsPlain out opts P w) → IsKept w w plain 0 0
  IsKept-stays w plain = record { plain_after = plain; counted = omega arith; grown = omega arith }

  pub IsKept-then :
      (u v w : Shipper S) (plain : IsPlain out opts P u) (g h x y : ℕ)
      (first : IsKept u v plain g x)
      → IsKept v w first.plain_after h y
      → IsKept u w plain (g + h) (x + y)
  IsKept-then u v w plain g h x y one two = record {
    plain_after = two.plain_after;
    counted = omega (arith, one.counted, two.counted);
    grown = omega (arith, one.grown, two.grown);
  }

  -- Another spool and outside, together with as many of the records that pass.
  pub spool-IsKept :
      (w : Shipper S) (file : Option (List String)) (s : S) (plain : IsPlain out opts P w)
      (rs : List Record) (gain extra : ℕ)
      → lines file ≡ encode out opts rs
      → All P rs
      → gain + count p (stored w.outside) + count p (heads plain.spooled)
        ≤ count p (stored s) + count p (heads rs)
      → length rs ≤ length plain.spooled + extra
      → IsKept w (record w { spool = file; outside = s }) plain gain extra
  spool-IsKept w file s plain rs gain extra e ps g x = record {
    plain_after = record {
      queue_All = plain.queue_All;
      batch_All = plain.batch_All;
      spooled = rs;
      spooled_All = ps;
      written = e;
    };
    counted = omega arith;
    grown = omega arith;
  }

  pub outside-IsKept :
      (w : Shipper S) (s : S) (plain : IsPlain out opts P w) (gain : ℕ)
      → gain + count p (stored w.outside) ≤ count p (stored s)
      → IsKept w (record w { outside = s }) plain gain 0
  outside-IsKept w s plain gain h =
      spool-IsKept w w.spool s plain plain.spooled gain 0 plain.written plain.spooled_All
        (omega arith) (omega arith)

  fits :
      (rs : List Record) (n : ℕ)
      → All P rs
      → length rs ≤ n
      → limit * n ≤ opts.spool_max_bytes
      → file_size (encode out opts rs) ≤ opts.spool_max_bytes
  fits rs n ps short room =
      omega
        (arith, file_size-encode out opts rs, sum_sizes-le rs ps, scaled limit (length rs) n short)

  module _ (keeps : WritesAll out) where
    opened :
        (r : Record) (rs : List Record) (w : Shipper S)
        → out.opens_append w.outside ≡ true
        → spool_append out opts (r ∷ rs) w
          ≡ enforce_cap out opts
              (record w { spool = some (lines w.spool ++ encode out opts (r ∷ rs)) })
    unfolding spool_append
    opened r rs w e = ground (arith, keeps (lines w.spool) (encode out opts (r ∷ rs)) w.outside)

    -- Records that come from the batch into the spool, which has room for them.
    pub spool_append-IsKept :
        (rs : List Record) (w : Shipper S) (plain : IsPlain out opts P w)
        → All P rs
        → limit * (length plain.spooled + length rs) ≤ opts.spool_max_bytes
        → IsKept w (spool_append out opts rs w) plain (count p (heads rs)) (length rs)
    unfolding spool_append
    spool_append-IsKept [] w plain ps room = IsKept-stays w plain
    spool_append-IsKept (r ∷ rs) w plain ps room =
        let both = plain.spooled ++ r ∷ rs in
        let file = some (lines w.spool ++ encode out opts (r ∷ rs)) in
        elim (Bool-cases (out.opens_append w.outside)) [
          | inl e ↦
              let all = All-append P plain.spooled (r ∷ rs) plain.spooled_All ps in
              let written : lines file ≡ encode out opts both =
                ap (λ k. k ++ encode out opts (r ∷ rs)) plain.written
                ∙ sym (encode-append out opts plain.spooled (r ∷ rs)) in
              let same : spool_append out opts (r ∷ rs) w ≡ record w { spool = file } =
                opened r rs w e
                ∙ enforce_cap_fits out opts (record w { spool = file })
                    (rw written (
                      fits both (length plain.spooled + length (r ∷ rs)) all
                        (omega (arith, length-append plain.spooled (r ∷ rs))) room)) in
              subst (λ v. IsKept w v plain (count p (heads (r ∷ rs))) (length (r ∷ rs))) (sym same)
                (spool-IsKept w file w.outside plain both (count p (heads (r ∷ rs)))
                  (length (r ∷ rs)) written all
                  (omega (arith, count-heads-append p plain.spooled (r ∷ rs)))
                  (omega (arith, length-append plain.spooled (r ∷ rs))))
          | inr e ↦
              let same : spool_append out opts (r ∷ rs) w
                  ≡ record w { dropped = w.dropped + length (r ∷ rs) } =
                ground arith in
              subst (λ v. IsKept w v plain (count p (heads (r ∷ rs))) (length (r ∷ rs))) (sym same)
                (record {
                  plain_after = record {
                    queue_All = plain.queue_All;
                    batch_All = plain.batch_All;
                    spooled = plain.spooled;
                    spooled_All = plain.spooled_All;
                    written = plain.written;
                  };
                  counted = omega (arith, count-heads-le p (r ∷ rs));
                  grown = omega arith;
                })
        ]

    -- What could not be sent takes the place of the spool, or the spool stays.
    pub spool_rewrite-IsKept :
        (left : List Record) (w : Shipper S) (s : S) (plain : IsPlain out opts P w)
        → All P left
        → length left ≤ length plain.spooled
        → count p (stored w.outside) + count p (heads plain.spooled)
          ≤ count p (stored s) + count p (heads left)
        → count p (stored w.outside) ≤ count p (stored s)
        → IsKept w (spool_rewrite out opts left (record w { outside = s })) plain 0 0
    unfolding spool_rewrite encode
    spool_rewrite-IsKept [] w s plain ps short moved more = elim (Bool-cases (out.removes s)) [
      | inl e ↦
          subst (λ v. IsKept w v plain 0 0) (ground arith)
            (spool-IsKept w none s plain [] 0 0 refl tt (omega arith) (omega arith))
      | inr e ↦
          subst (λ v. IsKept w v plain 0 0) (ground arith)
            (outside-IsKept w s plain 0 (omega arith))
    ]
    spool_rewrite-IsKept (r ∷ rs) w s plain ps short moved more =
        elim (Bool-cases (out.creates s && out.renames s)) [
          | inl e ↦
              subst (λ v. IsKept w v plain 0 0)
                (ground (arith, keeps [] (encode out opts (r ∷ rs)) s))
                (spool-IsKept w (some (encode out opts (r ∷ rs))) s plain (r ∷ rs) 0 0 refl ps
                  (omega arith) (omega arith))
          | inr e ↦
              subst (λ v. IsKept w v plain 0 0) (ground arith)
                (outside-IsKept w s plain 0 (omega arith))
        ]

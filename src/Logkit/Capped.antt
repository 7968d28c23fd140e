-- ===== src/Logkit/Capped.antt =====
-- The cap of the spool file.
use mathlib.Core.List.{append-nil}
use perfect_gift.Prelude.{
  String, ◌≤◌, ◌<◌, ◌≡◌, refl, ap, sym, subst, ◌∙◌, arith, true, some, List, [], ◌∷◌, ◌++◌, ◌⊎◌,
  Bool-cases, inl, inr, leb, ltb,
}
use perfect_gift.Logkit.Record.{Record}
use perfect_gift.Logkit.Options.{Options}
use perfect_gift.Logkit.Posting.{Outside, Shipper, lines, file_size}
use perfect_gift.Logkit.Spool.{
  encode, decode, spool_read, spool_rewrite, spool_append, enforce_cap, cons_line, sum_sizes,
  line_size, marshalled_size, drop_oldest,
}

-- Every call on the spool file succeeds.
pub record IsWritable {S : Type 0} (out : Outside S) (s : S) : Type 0 where
  pub appends : out.opens_append s ≡ true
  pub writes : (file ls : List String) → out.writes file ls s ≡ file ++ ls
  pub reads : out.opens_read s ≡ true
  pub creates : out.creates s ≡ true
  pub renames : out.renames s ≡ true
  pub removes : out.removes s ≡ true

module _ {S : Type 0} (out : Outside S) (opts : Options) where
  -- The newest records that fit: with one more they exceed the cap.
  pub record IsNewest (rs kept : List Record) : Type 0 where
    pub gone : List Record
    pub splits : rs ≡ gone ++ kept
    pub fits : sum_sizes out opts kept ≤ opts.spool_max_bytes
    pub no_more :
        (gone ≡ [])
        ⊎ ((old : List Record) × (r : Record) × (gone ≡ old ++ r ∷ [])
            × (opts.spool_max_bytes < sum_sizes out opts (r ∷ kept)))

  pub file_size-encode : (rs : List Record) → file_size (encode out opts rs) ≡ sum_sizes out opts rs
  unfolding encode cons_line sum_sizes line_size marshalled_size
  file_size-encode [] = refl
  file_size-encode (r ∷ rs) = ground (arith, file_size-encode rs)

  drop_oldest_fits :
      (rs : List Record)
      → sum_sizes out opts rs ≤ opts.spool_max_bytes
      → drop_oldest out opts (sum_sizes out opts rs) rs ≡ rs
  unfolding drop_oldest
  drop_oldest_fits [] h = refl
  drop_oldest_fits (r ∷ rs) h = ground arith

  drop_oldest_cons :
      (r : Record) (rs : List Record)
      → opts.spool_max_bytes < sum_sizes out opts (r ∷ rs)
      → drop_oldest out opts (sum_sizes out opts (r ∷ rs)) (r ∷ rs)
        ≡ drop_oldest out opts (sum_sizes out opts rs) rs
  unfolding drop_oldest sum_sizes line_size
  drop_oldest_cons r rs h = ground arith

  IsNewest-cons :
      (r : Record) (rs kept : List Record)
      → opts.spool_max_bytes < sum_sizes out opts (r ∷ rs)
      → IsNewest rs kept
      → IsNewest (r ∷ rs) kept
  IsNewest-cons r rs kept h n = record {
    gone = r ∷ n.gone;
    splits = ap (λ k. r ∷ k) n.splits;
    fits = n.fits;
    no_more = elim n.no_more [
      | inl e ↦ inr (
        [],
        r,
        ap (λ k. r ∷ k) e,
        subst (λ k. opts.spool_max_bytes < sum_sizes out opts (r ∷ k))
            (n.splits ∙ ap (λ k. k ++ kept) e) h,
      )
      | inr (old, q, e, more) ↦ inr (r ∷ old, q, ap (λ k. r ∷ k) e, more)
    ];
  }

  drop_oldest-IsNewest :
      (rs : List Record) → IsNewest rs (drop_oldest out opts (sum_sizes out opts rs) rs)
  unfolding drop_oldest sum_sizes
  drop_oldest-IsNewest [] = record {
    gone = [];
    splits = refl;
    fits = omega arith;
    no_more = inl refl;
  }
  drop_oldest-IsNewest (r ∷ rs) =
      elim (Bool-cases (ltb opts.spool_max_bytes (sum_sizes out opts (r ∷ rs)))) [
        | inl e ↦
            subst (IsNewest (r ∷ rs)) (sym (drop_oldest_cons r rs (ground arith)))
              (IsNewest-cons r rs _ (ground arith) (drop_oldest-IsNewest rs))
        | inr e ↦
            subst (IsNewest (r ∷ rs)) (sym (drop_oldest_fits (r ∷ rs) (ground arith)))
              (record { gone = []; splits = refl; fits = ground arith; no_more = inl refl })
      ]

  spool_rewrite-encode :
      (rs : List Record) (w : Shipper S)
      → IsWritable out w.outside
      → lines (spool_rewrite out opts rs w).spool ≡ encode out opts rs
  unfolding spool_rewrite encode
  spool_rewrite-encode [] w h = ground (arith, h.removes)
  spool_rewrite-encode (r ∷ rs) w h =
      ground (arith, h.creates, h.renames, h.writes [] (encode out opts (r ∷ rs)))

  enforce_cap_excess :
      (w : Shipper S)
      → IsWritable out w.outside
      → opts.spool_max_bytes < file_size (lines w.spool)
      → (kept : List Record) × (lines (enforce_cap out opts w).spool ≡ encode out opts kept)
        × IsNewest (decode out opts (lines w.spool)) kept
  unfolding enforce_cap spool_read
  enforce_cap_excess w h e =
      let rs = decode out opts (lines w.spool) in
      let kept = drop_oldest out opts (sum_sizes out opts rs) rs in
      (kept, ground (arith, h.reads, spool_rewrite-encode kept w h), drop_oldest-IsNewest rs)

  pub enforce_cap_fits :
      (w : Shipper S)
      → file_size (lines w.spool) ≤ opts.spool_max_bytes
      → enforce_cap out opts w ≡ w
  unfolding enforce_cap
  enforce_cap_fits w h = ground arith

  -- While the calls on the file succeed, a spool within SpoolMaxBytes is within it after records
  -- are appended; and it has all lines, or is written anew with the newest of the records that can
  -- be read, of which one more would exceed the cap.
  pub spool_append-IsNewest :
      (rs : List Record) (w : Shipper S)
      → IsWritable out w.outside
      → file_size (lines w.spool) ≤ opts.spool_max_bytes
      → (file_size (lines (spool_append out opts rs w).spool) ≤ opts.spool_max_bytes)
        × ((lines (spool_append out opts rs w).spool ≡ lines w.spool ++ encode out opts rs)
            ⊎ ((kept : List Record) × (lines (spool_append out opts rs w).spool
                  ≡ encode out opts kept)
                × IsNewest (decode out opts (lines w.spool ++ encode out opts rs)) kept))
  unfolding spool_append encode
  spool_append-IsNewest [] w h fits = (fits, inl (sym (append-nil _)))
  spool_append-IsNewest (r ∷ rs) w h fits =
      let v = record w { spool = some (lines w.spool ++ encode out opts (r ∷ rs)) } in
      let appended : spool_append out opts (r ∷ rs) w ≡ enforce_cap out opts v =
        ground (arith, h.appends, h.writes (lines w.spool) (encode out opts (r ∷ rs))) in
      elim (Bool-cases (leb (file_size (lines v.spool)) opts.spool_max_bytes)) [
        | inl e ↦
            let same = appended ∙ enforce_cap_fits v (ground arith) in
            (rw same (ground arith), inl (ap (λ x. lines x.spool) same))
        | inr e ↦
            let (kept, written, newest) = enforce_cap_excess v h (ground arith) in
            let file = ap (λ x. lines x.spool) appended ∙ written in
            (rw file (rw (file_size-encode kept) newest.fits), inr (kept, file, newest))
      ]

-- ===== src/Logkit/Overlong.antt =====
-- A line of the spool that the scanner cannot hold.
use perfect_gift.Prelude.{
  ℕ, ◌≤◌, ◌<◌, ◌≡◌, ap, sym, subst, ◌∙◌, arith, String, none, List, [], ◌∷◌, ◌++◌, All, List-cases,
  inl, inr, bytes, ap₂,
}
use perfect_gift.Logkit.Record.{Record}
use perfect_gift.Logkit.Options.{Options}
use perfect_gift.Logkit.Posting.{Outside, Shipper, lines}
use perfect_gift.Logkit.Spool.{
  encode, decode, spool_read, cons_line, cons_record, decode_line, max_line,
}
use perfect_gift.Logkit.Shipper.{drain_spool}
use perfect_gift.Logkit.Transport.{Head, heads, IsTransport}
use perfect_gift.Logkit.Plain.{drain_spool_nil, drain_spool_cons}
use perfect_gift.Logkit.Flushing.{IsHealthy, backfill_healthy}

nonempty : (r : Record) (rs : List Record) → heads (r ∷ rs) ≡ [] → ⊥
nonempty r rs e = absurd (cc)

module _ {S : Type 0} (out : Outside S) (opts : Options) {P : Record → Type 0} {limit : ℕ}
    {stored : S → List Head} (t : IsTransport out P limit stored) (l : String) (ls : List String)
    (long : max_line ≤ bytes l) where
  decode_overlong :
      (rs : List Record)
      → All P rs
      → All P (decode out opts (encode out opts rs ++ l ∷ ls))
        × (heads (decode out opts (encode out opts rs ++ l ∷ ls)) ≡ heads rs)
  unfolding encode decode decode_line cons_record cons_line
  decode_overlong [] _ =
      let nothing : decode out opts (l ∷ ls) ≡ [] = ground arith in
      (rw nothing tt, ap heads nothing)
  decode_overlong (r ∷ rs) (p, ps) =
      let (a, q, m, u, pq, h, trimmed, full, short) = t.has_line r p in
      let (qs, hs) = decode_overlong rs ps in
      let step : decode out opts (encode out opts (r ∷ rs) ++ l ∷ ls)
          ≡ q ∷ decode out opts (encode out opts rs ++ l ∷ ls) =
        ground (arith, t.readable) in
      (rw step (pq, qs), ap heads step ∙ ap₂ (λ x y. x ∷ y) h hs)

  -- A spool that begins with such a line is left as it is.
  pub drain_spool_stuck : (w : Shipper S) → lines w.spool ≡ l ∷ ls → drain_spool out opts w ≡ w
  unfolding spool_read decode
  drain_spool_stuck w e = drain_spool_nil out opts w (ground arith)

  -- Behind a line of 8 MiB or more the spool is not read: where the log server is healthy, a
  -- drain delivers the records in front of the line, of which there is at least one and whose
  -- lines the shipper wrote, and then removes the file with the line and all lines behind it.
  pub drain_spool_overlong :
      (H : S → Type 0)
      → IsHealthy out opts P H
      → 0 < opts.batch_size
      → (w : Shipper S) (r : Record) (rs : List Record) → H w.outside
      → All P (r ∷ rs)
      → lines w.spool ≡ encode out opts (r ∷ rs) ++ l ∷ ls
      → (s : S) × (drain_spool out opts w ≡ record w { spool = none; outside = s })
        × (stored s ≡ stored w.outside ++ heads (r ∷ rs))
  unfolding spool_read
  drain_spool_overlong H healthy b w r rs h ps e =
      let (qs, same) = decode_overlong (r ∷ rs) ps in
      let read : spool_read out opts w ≡ decode out opts (encode out opts (r ∷ rs) ++ l ∷ ls) =
        ground (arith, healthy.reads w.outside h) in
      elim (List-cases (decode out opts (encode out opts (r ∷ rs) ++ l ∷ ls))) [
        | inl none_read ↦ absurd (nonempty r rs (sym same ∙ ap heads none_read))
        | inr (x, xs, some_read) ↦
            let (s, done, hs, has) =
              backfill_healthy out opts t H healthy b x xs w (subst (All P) some_read qs) h in
            (
              s,
              drain_spool_cons out opts w x xs (read ∙ some_read) ∙ done,
              has ∙ ap (λ k. stored w.outside ++ k) (sym (ap heads some_read) ∙ same),
            )
      ]

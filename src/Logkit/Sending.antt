-- ===== src/Logkit/Sending.antt =====
-- Sending and draining lose no record silently while writes to an open file keep every line.
use perfect_gift.Prelude.{
  ℕ, ◌+◌, ◌-◌, ◌*◌, ◌≤◌, ◌≡◌, ap, sym, subst, ◌∙◌, arith, Bool, List, ◌∷◌, ◌++◌, length, Bool-cases,
  List-cases, inl, inr, eqb, length-append, length-map, All,
}
use perfect_gift.Logkit.Record.{Record}
use perfect_gift.Logkit.Options.{Options}
use perfect_gift.Logkit.Posting.{WritesAll, Outside, Shipper, post_chunks}
use perfect_gift.Logkit.Spool.{encode, decode, spool_read}
use perfect_gift.Logkit.Shipper.{send, backfill, drain_spool}
use perfect_gift.Logkit.Transport.{Head, head, heads, IsTransport, decode-encode}
use perfect_gift.Logkit.Plain.{IsPlain, drain_spool_nil, drain_spool_cons}
use perfect_gift.Logkit.Chunks.{IsSplit, post_chunks-IsSplit}
use perfect_gift.Logkit.Tally.{
  count, count-append, count-heads-append, IsKept, IsKept-stays, spool_append-IsKept,
  spool_rewrite-IsKept, outside-IsKept, scaled,
}

module _ {S : Type 0} (out : Outside S) (opts : Options) {P : Record → Type 0} {limit : ℕ}
    {stored : S → List Head} (t : IsTransport out P limit stored) (p : Head → Bool)
    (keeps : WritesAll out) where
  -- What has been stored by a sequence of posts.
  split-count :
      (rs : List Record) (s : S) (x : List Record × S)
      → IsSplit out opts t rs s x
      → (count p (stored s) + count p (heads rs) ≤ count p (stored x.1) + count p (heads x.0))
        × (count p (stored s) ≤ count p (stored x.1))
        × (length x.0 ≤ length rs)
  split-count rs s x h =
      let a = ap (count p) h.has ∙ count-append p (stored s) (heads h.sent ++ h.more) in
      let b = count-append p (heads h.sent) h.more in
      let c = ap (λ k. count p (heads k)) h.splits ∙ count-heads-append p h.sent x.0 in
      let d = ap length h.splits ∙ length-append h.sent x.0 in
      (omega arith, omega arith, omega arith)

  backfill-IsKept :
      (rs : List Record) (w : Shipper S) (plain : IsPlain out opts P w)
      → All P rs
      → heads rs ≡ heads plain.spooled
      → IsKept out opts t p w (backfill out opts rs w) plain 0 0
  unfolding backfill
  backfill-IsKept rs w plain ps same =
      let tried = post_chunks out opts (length rs) rs w.outside in
      let split = post_chunks-IsSplit out opts t (length rs) rs w.outside ps in
      let (moved, more, short) = split-count rs w.outside tried split in
      let n = sym (length-map head rs) ∙ ap length same ∙ length-map head plain.spooled in
      elim (Bool-cases (eqb (length tried.0) (length rs))) [
        | inl e ↦
            subst (λ v. IsKept out opts t p w v plain 0 0) (ground arith)
              (outside-IsKept out opts t p w tried.1 plain 0 (omega arith))
        | inr e ↦
            subst (λ v. IsKept out opts t p w v plain 0 0) (ground arith)
              (spool_rewrite-IsKept out opts t p keeps tried.0 w tried.1 plain split.left_All
                (omega arith) (rw (sym same) moved) more)
      ]

  read_records :
      (w : Shipper S) (plain : IsPlain out opts P w) (r : Record) (rs : List Record)
      → spool_read out opts w ≡ r ∷ rs
      → All P (r ∷ rs) × (heads (r ∷ rs) ≡ heads plain.spooled)
  unfolding spool_read
  read_records w plain r rs e =
      let (ps, same) = decode-encode out opts t plain.spooled plain.spooled_All in
      let read : decode out opts (encode out opts plain.spooled) ≡ r ∷ rs =
        ground (arith, plain.written) in
      (subst (All P) read ps, sym (ap heads read) ∙ same)

  pub drain_spool-IsKept :
      (w : Shipper S) (plain : IsPlain out opts P w)
      → IsKept out opts t p w (drain_spool out opts w) plain 0 0
  drain_spool-IsKept w plain = elim (List-cases (spool_read out opts w)) [
    | inl e ↦
        subst (λ v. IsKept out opts t p w v plain 0 0) (sym (drain_spool_nil out opts w e))
          (IsKept-stays out opts t p w plain)
    | inr (r, rs, e) ↦
        let (ps, same) = read_records w plain r rs e in
        subst (λ v. IsKept out opts t p w v plain 0 0) (sym (drain_spool_cons out opts w r rs e))
          (backfill-IsKept (r ∷ rs) w plain ps same)
  ]

  pub send-IsKept :
      (rs : List Record) (w : Shipper S) (plain : IsPlain out opts P w)
      → All P rs
      → limit * (length plain.spooled + length rs) ≤ opts.spool_max_bytes
      → IsKept out opts t p w (send out opts rs w) plain (count p (heads rs)) (length rs)
  unfolding send
  send-IsKept rs w plain ps room =
      let tried = post_chunks out opts (length rs) rs w.outside in
      let split = post_chunks-IsSplit out opts t (length rs) rs w.outside ps in
      let (moved, more, short) = split-count rs w.outside tried split in
      let gone =
        outside-IsKept out opts t p w tried.1 plain
          (count p (stored tried.1) - count p (stored w.outside)) (omega arith) in
      let back =
        spool_append-IsKept out opts t p keeps tried.0 (record w { outside = tried.1 })
          gone.plain_after split.left_All
          (omega (
            arith,
            room,
            scaled limit (length gone.plain_after.spooled + length tried.0)
                (length plain.spooled + length rs) (omega (arith, gone.grown)),
          )) in
      record {
        plain_after = back.plain_after;
        counted = omega (arith, gone.counted, back.counted);
        grown = omega (arith, gone.grown, back.grown);
      }

-- ===== src/Logkit/Flushing.antt =====
-- A flush while the log server answers 2xx.
use mathlib.Core.List.{append_assoc, append-nil}
use perfect_gift.Prelude.{
  ℕ, ◌<◌, ◌≡◌, refl, ap, sym, subst, ◌∙◌, arith, String, true, Option, none, List, [], ◌∷◌, ◌++◌,
  length, All, All-append, List-cases, inl, inr,
}
use perfect_gift.Logkit.Record.{Record}
use perfect_gift.Logkit.Options.{Options}
use perfect_gift.Logkit.Posting.{Outside, Shipper, post, lines, drain_queue}
use perfect_gift.Logkit.Spool.{encode, decode, spool_read, spool_rewrite, spool_append}
use perfect_gift.Logkit.Shipper.{send, send_batch, backfill, drain_spool, flush}
use perfect_gift.Logkit.Transport.{Head, heads, IsTransport, decode-encode}
use perfect_gift.Logkit.Plain.{IsPlain, drain_spool_nil, drain_spool_cons}
use perfect_gift.Logkit.Chunks.{post_chunks_healthy}

pub heads_nil : (rs : List Record) → heads rs ≡ [] → rs ≡ []
heads_nil [] e = refl
heads_nil (r ∷ rs) e = absurd (cc)

-- While H holds, the log server takes what is posted, and the spool can be read and removed.
pub record IsHealthy {S : Type 0} (out : Outside S) (opts : Options) (P : Record → Type 0)
    (H : S → Type 0) : Type 0 where
  pub accepts :
      (rs : List Record) (s : S)
      → All P rs
      → H s
      → ((post out opts rs s).0 ≡ true) × H (post out opts rs s).1
  pub reads : (s : S) → H s → out.opens_read s ≡ true
  pub removes : (s : S) → H s → out.removes s ≡ true

module _ {S : Type 0} (out : Outside S) (opts : Options) {P : Record → Type 0} {limit : ℕ}
    {stored : S → List Head} (t : IsTransport out P limit stored) (H : S → Type 0)
    (healthy : IsHealthy out opts P H) (b : 0 < opts.batch_size) where
  send_healthy :
      (rs : List Record) (w : Shipper S)
      → All P rs
      → H w.outside
      → (s : S) × (send out opts rs w ≡ record w { outside = s })
        × (H s)
        × (stored s ≡ stored w.outside ++ heads rs)
  unfolding send spool_append
  send_healthy rs w ps h =
      let (s, e, hs, has) =
        post_chunks_healthy out opts t H healthy.accepts b (length rs) rs w.outside (omega arith) ps
          h in
      (s, ap (λ x. spool_append out opts x.0 (record w { outside = x.1 })) e, hs, has)

  send_batch_healthy :
      (w : Shipper S)
      → All P w.batch
      → H w.outside
      → (s : S) × (send_batch out opts w ≡ record w { batch = []; outside = s })
        × (H s)
        × (stored s ≡ stored w.outside ++ heads w.batch)
  unfolding send_batch
  send_batch_healthy w ps h = elim (List-cases w.batch) [
    | inl e ↦ (w.outside, ground arith, h, rw e (sym (append-nil _)))
    | inr (x, xs, e) ↦
        let (s, sent, hs, has) =
          send_healthy (x ∷ xs) (record w { batch = [] }) (subst (All P) e ps) h in
        (s, ground arith, hs, rw e has)
  ]

  pub backfill_healthy :
      (r : Record) (rs : List Record) (w : Shipper S)
      → All P (r ∷ rs)
      → H w.outside
      → (s : S) × (backfill out opts (r ∷ rs) w ≡ record w { spool = none; outside = s })
        × (H s)
        × (stored s ≡ stored w.outside ++ heads (r ∷ rs))
  unfolding backfill spool_rewrite
  backfill_healthy r rs w ps h =
      let (s, e, hs, has) =
        post_chunks_healthy out opts t H healthy.accepts b (length (r ∷ rs)) (r ∷ rs) w.outside
          (omega arith) ps h in
      (s, ground (arith, healthy.removes s hs), hs, has)

  drain_spool_healthy :
      (w : Shipper S) (rs : List Record)
      → All P rs
      → lines w.spool ≡ encode out opts rs
      → H w.outside
      → (s : S) × (f : Option (List String)) × (drain_spool out opts w
          ≡ record w { spool = f; outside = s })
        × (lines f ≡ [])
        × (H s)
        × (stored s ≡ stored w.outside ++ heads rs)
  unfolding spool_read encode
  drain_spool_healthy w rs ps e h =
      let (qs, same) = decode-encode out opts t rs ps in
      let read : spool_read out opts w ≡ decode out opts (encode out opts rs) =
        ground (arith, healthy.reads w.outside h) in
      elim (List-cases (decode out opts (encode out opts rs))) [
        | inl none_read ↦
            let empty : rs ≡ [] = heads_nil rs (sym same ∙ ap heads none_read) in
            (
              w.outside,
              w.spool,
              drain_spool_nil out opts w (read ∙ none_read),
              ground arith,
              h,
              rw empty (sym (append-nil _)),
            )
        | inr (x, xs, some_read) ↦
            let (s, done, hs, has) = backfill_healthy x xs w (subst (All P) some_read qs) h in
            (
              s,
              none,
              drain_spool_cons out opts w x xs (read ∙ some_read) ∙ done,
              refl,
              hs,
              has ∙ ap (λ k. stored w.outside ++ k) (sym (ap heads some_read) ∙ same),
            )
      ]

  -- While the log server answers 2xx to all that is posted and the spool can be read and
  -- removed, a flush leaves the queue, the batch and the spool empty and drops nothing, and
  -- the log server has their records behind what it had: those of the queue behind the batch,
  -- and the spool's last; each is in the set of records that encoding/json brings back, each
  -- line of the spool is one that the shipper wrote, and BatchSize is not 0.
  pub flush_delivers :
      (w : Shipper S)
      → (plain : IsPlain out opts P w) → H w.outside
      → ((flush out opts w).queue ≡ [])
        × ((flush out opts w).batch ≡ [])
        × (lines (flush out opts w).spool ≡ [])
        × ((flush out opts w).dropped ≡ w.dropped)
        × (stored (flush out opts w).outside
            ≡ stored w.outside ++ (heads (w.batch ++ w.queue) ++ heads plain.spooled))
  unfolding flush drain_queue
  flush_delivers w plain h =
      let (s, sent, hs, has) =
        send_batch_healthy (drain_queue w)
          (All-append P w.batch w.queue plain.batch_All plain.queue_All) h in
      let (s', f, drained, empty, _, has') =
        drain_spool_healthy (record w { queue = []; batch = []; outside = s }) plain.spooled
          plain.spooled_All plain.written hs in
      let done : flush out opts w ≡ record w { queue = []; batch = []; spool = f; outside = s' } =
        ap (drain_spool out opts) sent ∙ drained in
      (
        ap (λ v. v.queue) done,
        ap (λ v. v.batch) done,
        ap (λ v. lines v.spool) done ∙ empty,
        ap (λ v. v.dropped) done,
        ap (λ v. stored v.outside) done
            ∙ has'
            ∙ ap (λ k. k ++ heads plain.spooled) has
            ∙ append_assoc (stored w.outside) (heads (w.batch ++ w.queue)) (heads plain.spooled),
      )

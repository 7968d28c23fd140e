-- ===== src/Logkit/Accounting.antt =====
-- No round of the loop loses a record silently while writes to an open file keep every line.
use mathlib.Core.List.{append-nil}
use perfect_gift.Prelude.{
  ℕ, ◌+◌, ◌*◌, ◌≤◌, ◌≡◌, ap, sym, subst, ◌∙◌, arith, Bool, false, List, [], ◌∷◌, ◌++◌, length,
  Bool-cases, List-cases, inl, inr, leb, ltb, length-append, All, All-append,
}
use perfect_gift.Logkit.Record.{Record}
use perfect_gift.Logkit.Options.{Options}
use perfect_gift.Logkit.Posting.{WritesAll, Outside, Shipper, drain_queue}
use perfect_gift.Logkit.Shipper.{send, send_batch, flush, receive, enqueue}
use perfect_gift.Logkit.Transport.{Head, head, heads, IsTransport}
use perfect_gift.Logkit.Plain.{IsPlain}
use perfect_gift.Logkit.Sending.{send-IsKept, drain_spool-IsKept}
use perfect_gift.Logkit.Tally.{
  count, count-heads-append, count-heads-le, held, IsKept, IsKept-stays, IsKept-then, scaled,
}

module _ {S : Type 0} (out : Outside S) (opts : Options) {P : Record → Type 0} {limit : ℕ}
    {stored : S → List Head} (t : IsTransport out P limit stored) (p : Head → Bool)
    (keeps : WritesAll out) where
  emptied : (w : Shipper S) → IsPlain out opts P w → IsPlain out opts P (record w { batch = [] })
  emptied w plain = record {
    queue_All = plain.queue_All;
    batch_All = tt;
    spooled = plain.spooled;
    spooled_All = plain.spooled_All;
    written = plain.written;
  }

  pub send_batch-IsKept :
      (w : Shipper S) (plain : IsPlain out opts P w)
      → limit * held out opts t p plain ≤ opts.spool_max_bytes
      → IsKept out opts t p w (send_batch out opts w) plain 0 0
  unfolding send_batch emptied
  send_batch-IsKept w plain room = elim (List-cases w.batch) [
    | inl e ↦
        subst (λ v. IsKept out opts t p w v plain 0 0) (ground arith)
          (IsKept-stays out opts t p w plain)
    | inr (r, rs, e) ↦
        let v = record w { batch = [] } in
        let sent = send-IsKept out opts t p keeps w.batch v (emptied w plain) plain.batch_All (
          omega (
            arith,
            room,
            scaled limit (length plain.spooled + length w.batch) (held out opts t p plain)
                (omega arith),
          )) in
        let same : send out opts w.batch v ≡ send_batch out opts w = ground arith in
        subst (λ x. IsKept out opts t p w x plain 0 0) same
          (record {
            plain_after = sent.plain_after;
            counted = omega (arith, sent.counted);
            grown = omega (arith, sent.grown);
          })
  ]

  -- Records that go from the queue to the batch.
  moved-IsKept :
      (w : Shipper S) (taken rest : List Record) (plain : IsPlain out opts P w)
      → w.queue ≡ taken ++ rest
      → All P taken
      → All P rest
      → IsKept out opts t p w (record w { queue = rest; batch = w.batch ++ taken }) plain 0 0
  moved-IsKept w taken rest plain e ps qs =
      let a = ap (λ k. count p (heads k)) e ∙ count-heads-append p taken rest in
      let b = ap length e ∙ length-append taken rest in
      record {
        plain_after = record {
          queue_All = qs;
          batch_All = All-append P w.batch taken plain.batch_All ps;
          spooled = plain.spooled;
          spooled_All = plain.spooled_All;
          written = plain.written;
        };
        counted = omega (arith, count-heads-append p w.batch taken);
        grown = omega (arith, length-append w.batch taken);
      }

  -- Two moves, the second with room for what is held after the first.
  IsKept-then_roomy :
      (u v w : Shipper S) (plain : IsPlain out opts P u)
      → limit * held out opts t p plain ≤ opts.spool_max_bytes
      → IsKept out opts t p u v plain 0 0
      → ((after : IsPlain out opts P v)
          → limit * held out opts t p after ≤ opts.spool_max_bytes
          → IsKept out opts t p v w after 0 0)
      → IsKept out opts t p u w plain 0 0
  IsKept-then_roomy u v w plain room first second =
      IsKept-then out opts t p u v w plain 0 0 0 0 first (
        second first.plain_after (
          omega (
            arith,
            room,
            scaled limit (held out opts t p first.plain_after) (held out opts t p plain)
                (omega (arith, first.grown)),
          )))

  pub flush-IsKept :
      (w : Shipper S) (plain : IsPlain out opts P w)
      → limit * held out opts t p plain ≤ opts.spool_max_bytes
      → IsKept out opts t p w (flush out opts w) plain 0 0
  unfolding flush drain_queue
  flush-IsKept w plain room =
      IsKept-then_roomy w (drain_queue w) _ plain room
        (moved-IsKept w w.queue [] plain (sym (append-nil w.queue)) plain.queue_All tt)
        λ after room'.
          IsKept-then_roomy (drain_queue w) (send_batch out opts (drain_queue w)) _ after room'
            (send_batch-IsKept (drain_queue w) after room')
            λ last _.
              drain_spool-IsKept out opts t p keeps (send_batch out opts (drain_queue w)) last

  pub receive-IsKept :
      (rs : List Record) (w : Shipper S) (plain : IsPlain out opts P w)
      → w.queue ≡ rs
      → limit * held out opts t p plain ≤ opts.spool_max_bytes
      → IsKept out opts t p w (receive out opts rs w) plain 0 0
  unfolding receive
  receive-IsKept [] w plain e room = IsKept-stays out opts t p w plain
  receive-IsKept (r ∷ rs) w plain e room =
      let v = record w { queue = rs; batch = w.batch ++ r ∷ [] } in
      let (pr, ps) = subst (All P) e plain.queue_All in
      let taken = moved-IsKept w (r ∷ []) rs plain e (pr, tt) ps in
      elim (Bool-cases (leb opts.batch_size (length v.batch))) [
        | inl e ↦
            subst (λ x. IsKept out opts t p w x plain 0 0) (ground arith)
              (IsKept-then_roomy w v (send_batch out opts v) plain room taken (send_batch-IsKept v))
        | inr e ↦ subst (λ x. IsKept out opts t p w x plain 0 0) (ground arith) taken
      ]

  -- Closing changes whether the loop runs, and nothing that is counted.
  pub stopped-IsKept :
      (w v : Shipper S) (plain : IsPlain out opts P w)
      → IsKept out opts t p w v plain 0 0
      → IsKept out opts t p w (record v { running = false }) plain 0 0
  stopped-IsKept w v plain h = record {
    plain_after = record {
      queue_All = h.plain_after.queue_All;
      batch_All = h.plain_after.batch_All;
      spooled = h.plain_after.spooled;
      spooled_All = h.plain_after.spooled_All;
      written = h.plain_after.written;
    };
    counted = h.counted;
    grown = h.grown;
  }

  pub enqueue-IsKept :
      (r : Record) (w : Shipper S) (plain : IsPlain out opts P w)
      → P r
      → IsKept out opts t p w (enqueue out opts r w) plain (count p (head r ∷ [])) 1
  unfolding enqueue
  enqueue-IsKept r w plain pr = elim (Bool-cases (ltb (length w.queue) opts.queue_size)) [
    | inl e ↦
        let same : record w { queue = w.queue ++ r ∷ [] } ≡ enqueue out opts r w = ground arith in
        subst (λ v. IsKept out opts t p w v plain (count p (head r ∷ [])) 1) same
          (record {
            plain_after = record {
              queue_All = All-append P w.queue (r ∷ []) plain.queue_All (pr, tt);
              batch_All = plain.batch_All;
              spooled = plain.spooled;
              spooled_All = plain.spooled_All;
              written = plain.written;
            };
            counted = omega (arith, count-heads-append p w.queue (r ∷ []));
            grown = omega (arith, length-append w.queue (r ∷ []));
          })
    | inr e ↦
        let same : record w { dropped = w.dropped + 1 } ≡ enqueue out opts r w = ground arith in
        subst (λ v. IsKept out opts t p w v plain (count p (head r ∷ [])) 1) same
          (record {
            plain_after = record {
              queue_All = plain.queue_All;
              batch_All = plain.batch_All;
              spooled = plain.spooled;
              spooled_All = plain.spooled_All;
              written = plain.written;
            };
            counted = omega (arith, count-heads-le p (r ∷ []));
            grown = omega arith;
          })
  ]

-- ===== src/Logkit/Plain.antt =====
-- A shipper whose records all have a property, and the two ways of draining its spool.
use perfect_gift.Prelude.{◌≡◌, List, [], ◌∷◌, All, arith}
use perfect_gift.Logkit.Record.{Record}
use perfect_gift.Logkit.Options.{Options}
use perfect_gift.Logkit.Posting.{Outside, Shipper, lines}
use perfect_gift.Logkit.Spool.{encode, spool_read}
use perfect_gift.Logkit.Shipper.{backfill, drain_spool}

-- All that the shipper holds is in P, and each line of the spool is one that it wrote.
pub record IsPlain {S : Type 0} (out : Outside S) (opts : Options) (P : Record → Type 0)
    (w : Shipper S) : Type 0 where
  pub queue_All : All P w.queue
  pub batch_All : All P w.batch
  pub spooled : List Record
  pub spooled_All : All P spooled
  pub written : lines w.spool ≡ encode out opts spooled

module _ {S : Type 0} (out : Outside S) (opts : Options) where
  pub drain_spool_nil : (w : Shipper S) → spool_read out opts w ≡ [] → drain_spool out opts w ≡ w
  unfolding drain_spool
  drain_spool_nil w e = ground arith

  pub drain_spool_cons :
      (w : Shipper S) (r : Record) (rs : List Record)
      → spool_read out opts w ≡ r ∷ rs
      → drain_spool out opts w ≡ backfill out opts (r ∷ rs) w
  unfolding drain_spool
  drain_spool_cons w r rs e = ground arith

-- ===== src/Logkit/Shipper.antt =====
-- pkg/logkit/shipper.go: the operations of the shipper, and its event loop as a sequence of rounds.
use perfect_gift.Prelude.{◌+◌, false, List, [], ◌∷◌, ◌++◌, length, ltb, leb, eqb, if◌then◌else◌}
use perfect_gift.Logkit.Record.{Record}
use perfect_gift.Logkit.Options.{Options}
use perfect_gift.Logkit.Posting.{Outside, Shipper, drain_queue, post_chunks}
use perfect_gift.Logkit.Spool.{spool_read, spool_append, spool_rewrite}

-- What happens to the shipper: a caller's record, a round of the loop, or a change outside.
pub data Event (S : Type 0) : Type 0 where
  logged : Record → Event S
  received flush_tick retry_tick flush_requested closed : Event S
  outside_changed : (S → S) → Event S

module _ {S : Type 0} (out : Outside S) (opts : Options) where
  -- enqueue
  unfoldable pub enqueue : Record → Shipper S → Shipper S
  enqueue r w =
      if ltb (length w.queue) opts.queue_size
      then record w { queue = w.queue ++ r ∷ [] }
      else record w { dropped = w.dropped + 1 }

  -- send: at most one chunk for each record
  unfoldable pub send : List Record → Shipper S → Shipper S
  send rs w =
      let tried = post_chunks out opts (length rs) rs w.outside in
      spool_append out opts tried.0 (record w { outside = tried.1 })

  -- The rest of drainSpool: what could not be sent, if anything could, replaces the spool.
  unfoldable pub backfill : List Record → Shipper S → Shipper S
  backfill rs w =
      let tried = post_chunks out opts (length rs) rs w.outside in
      if eqb (length tried.0) (length rs)
      then record w { outside = tried.1 }
      else spool_rewrite out opts tried.0 (record w { outside = tried.1 })

  -- drainSpool
  unfoldable pub drain_spool : Shipper S → Shipper S
  drain_spool w = elim (spool_read out opts w) [ [] ↦ w | r ∷ rs ↦ backfill (r ∷ rs) w ]

  -- if len(batch) > 0 { s.send(batch) }, and the batch is emptied
  unfoldable pub send_batch : Shipper S → Shipper S
  send_batch w = elim w.batch [ [] ↦ w | r ∷ rs ↦ send (r ∷ rs) (record w { batch = [] }) ]

  -- case rec := <-s.queue
  unfoldable pub receive : List Record → Shipper S → Shipper S
  receive [] w = w
  receive (r ∷ rs) w =
      let v = record w { queue = rs; batch = w.batch ++ r ∷ [] } in
      if leb opts.batch_size (length v.batch) then send_batch v else v

  -- case reply := <-s.flushReq
  unfoldable pub flush : Shipper S → Shipper S
  flush w = drain_spool (send_batch (drain_queue w))

  -- One round of loop; after `close(s.stopped)` there is none.
  unfoldable pub round : Event S → Shipper S → Shipper S
  unfolding receive
  round (logged r) w = enqueue r w
  round (outside_changed change) w = record w { outside = change w.outside }
  round received w = if w.running then receive w.queue w else w
  round flush_tick w = if w.running then send_batch w else w
  round retry_tick w = if w.running then drain_spool w else w
  round flush_requested w = if w.running then flush w else w
  round closed w = if w.running then record (flush w) { running = false } else w

  -- The rounds of loop, in the order in which they happen.
  unfoldable pub run : List (Event S) → Shipper S → Shipper S
  unfolding round
  run [] w = w
  run (e ∷ es) w = run es (round e w)

-- ===== src/Logkit/Bounded.antt =====
-- The bounds of the queue, of and of the batch.
use perfect_gift.Prelude.{
  String, Option, subst, Bool-cases, length-append, ◌++◌, some, ◌≤◌, ◌<◌, ◌≡◌, refl, arith, List,
  [], ◌∷◌, length, List-cases, inl, inr,
}
use perfect_gift.Logkit.Record.{Record}
use perfect_gift.Logkit.Options.{with_defaults, positive_or, Options}
use perfect_gift.Logkit.Posting.{new_shipper, lines, post_chunks, drain_queue, Outside, Shipper}
use perfect_gift.Logkit.Spool.{
  drop_oldest, sum_sizes, encode, spool_read, spool_rewrite, spool_append, enforce_cap,
}
use perfect_gift.Logkit.Shipper.{
  received, flush_tick, retry_tick, flush_requested, closed, outside_changed, logged, enqueue,
  Event, receive, flush, run, round, send, send_batch, backfill, drain_spool,
}

-- The channel holds at most QueueSize records, and the batch fewer than BatchSize.
pub record IsBounded {S : Type 0} (opts : Options) (w : Shipper S) : Type 0 where
  pub queue_bounded : length w.queue ≤ opts.queue_size
  pub batch_bounded : length w.batch < opts.batch_size

-- The same queue and batch.
abbrev Keeps : {S : Type 0} → Shipper S → Shipper S → Type 0
Keeps w v = (v.queue ≡ w.queue) × (v.batch ≡ w.batch)

module _ {S : Type 0} (out : Outside S) (opts : Options) where
  Keeps-spool_rewrite : (rs : List Record) (w : Shipper S) → Keeps w (spool_rewrite out opts rs w)
  unfolding spool_rewrite
  Keeps-spool_rewrite [] w = ground arith
  Keeps-spool_rewrite (r ∷ rs) w = ground arith

  Keeps-enforce_cap : (w : Shipper S) → Keeps w (enforce_cap out opts w)
  unfolding enforce_cap
  Keeps-enforce_cap w = ground (
    arith,
    Keeps-spool_rewrite
        (drop_oldest out opts (sum_sizes out opts (spool_read out opts w)) (spool_read out opts w))
        w,
  )

  Keeps-spool_append : (rs : List Record) (w : Shipper S) → Keeps w (spool_append out opts rs w)
  unfolding spool_append
  Keeps-spool_append [] w = (refl, refl)
  Keeps-spool_append (r ∷ rs) w = ground (
    arith,
    Keeps-enforce_cap (record w {
      spool = some (out.writes (lines w.spool) (encode out opts (r ∷ rs)) w.outside);
    }),
  )

  Keeps-send : (rs : List Record) (w : Shipper S) → Keeps w (send out opts rs w)
  unfolding send
  Keeps-send rs w =
      let tried = post_chunks out opts (length rs) rs w.outside in
      Keeps-spool_append tried.0 (record w { outside = tried.1 })

  Keeps-backfill : (rs : List Record) (w : Shipper S) → Keeps w (backfill out opts rs w)
  unfolding backfill
  Keeps-backfill rs w =
      let tried = post_chunks out opts (length rs) rs w.outside in
      ground (arith, Keeps-spool_rewrite tried.0 (record w { outside = tried.1 }))

  Keeps-drain_spool : (w : Shipper S) → Keeps w (drain_spool out opts w)
  unfolding drain_spool
  Keeps-drain_spool w = elim (List-cases (spool_read out opts w)) [
    | inl e ↦ ground arith
    | inr (r, rs, e) ↦ ground (arith, Keeps-backfill (r ∷ rs) w)
  ]

  send_batch_empties :
      (w : Shipper S)
      → ((send_batch out opts w).queue ≡ w.queue) × ((send_batch out opts w).batch ≡ [])
  unfolding send_batch
  send_batch_empties w = elim (List-cases w.batch) [
    | inl e ↦ ground arith
    | inr (r, rs, e) ↦ ground (arith, Keeps-send (r ∷ rs) (record w { batch = [] }))
  ]

  flush_empties :
      (w : Shipper S) → ((flush out opts w).queue ≡ []) × ((flush out opts w).batch ≡ [])
  unfolding flush drain_queue
  flush_empties w = ground (
    arith,
    send_batch_empties (drain_queue w),
    Keeps-drain_spool (send_batch out opts (drain_queue w)),
  )

  module _ (b : 0 < opts.batch_size) where
    receive-IsBounded :
        (rs : List Record) (w : Shipper S)
        → w.queue ≡ rs
        → IsBounded opts w
        → IsBounded opts (receive out opts rs w)
    unfolding receive
    receive-IsBounded [] w e h = h
    receive-IsBounded (r ∷ rs) w e h =
        let v = record w { queue = rs; batch = w.batch ++ r ∷ [] } in
        record {
          queue_bounded = ground (arith, send_batch_empties v, h.queue_bounded);
          batch_bounded = ground (arith, send_batch_empties v, h.batch_bounded);
        }

    round-IsBounded :
        (e : Event S) (w : Shipper S) → IsBounded opts w → IsBounded opts (round out opts e w)
    unfolding round enqueue
    round-IsBounded (logged r) w h = record {
      queue_bounded = ground (arith, length-append w.queue (r ∷ []), h.queue_bounded);
      batch_bounded = ground (arith, h.batch_bounded);
    }
    round-IsBounded (outside_changed s) w h = record {
      queue_bounded = h.queue_bounded;
      batch_bounded = h.batch_bounded;
    }
    round-IsBounded received w h = elim (Bool-cases w.running) [
      | inl r ↦ subst (IsBounded opts) (ground arith) (receive-IsBounded w.queue w refl h)
      | inr r ↦ subst (IsBounded opts) (ground arith) h
    ]
    round-IsBounded flush_tick w h = elim (Bool-cases w.running) [
      | inl r ↦ record {
        queue_bounded = ground (arith, send_batch_empties w, h.queue_bounded);
        batch_bounded = ground (arith, send_batch_empties w, b);
      }
      | inr r ↦ subst (IsBounded opts) (ground arith) h
    ]
    round-IsBounded retry_tick w h = record {
      queue_bounded = ground (arith, Keeps-drain_spool w, h.queue_bounded);
      batch_bounded = ground (arith, Keeps-drain_spool w, h.batch_bounded);
    }
    round-IsBounded flush_requested w h = record {
      queue_bounded = ground (arith, flush_empties w, h.queue_bounded);
      batch_bounded = ground (arith, flush_empties w, h.batch_bounded);
    }
    round-IsBounded closed w h = record {
      queue_bounded = ground (arith, flush_empties w, h.queue_bounded);
      batch_bounded = ground (arith, flush_empties w, h.batch_bounded);
    }

    run-IsBounded' :
        (es : List (Event S)) (w : Shipper S)
        → IsBounded opts w
        → IsBounded opts (run out opts es w)
    unfolding run
    run-IsBounded' [] w h = h
    run-IsBounded' (e ∷ es) w h = run-IsBounded' es (round out opts e w) (round-IsBounded e w h)

-- For a shipper that starts with the settings that NewHandler completes, after any rounds of its
-- loop the channel has at most QueueSize records, its capacity, which callers respect by dropping,
-- and the batch has fewer than BatchSize records: a round that fills the batch, or drains the
-- channel into it, also empties it before it ends. This holds whatever is logged and whatever the
-- log server and the disk do.
pub run-IsBounded :
    {S : Type 0} (out : Outside S) (o : Options) (es : List (Event S)) (s : S)
    (spool : Option (List String))
    → IsBounded (with_defaults o) (run out (with_defaults o) es (new_shipper s spool))
unfolding with_defaults positive_or new_shipper
run-IsBounded out o es s spool =
    run-IsBounded' out (with_defaults o) (ground arith) es (new_shipper s spool)
      (record { queue_bounded = ground arith; batch_bounded = ground arith })

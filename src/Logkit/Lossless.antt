-- ===== src/Logkit/Lossless.antt =====
-- A sequence of rounds of the loop, with callers that log and an outside that changes.
use perfect_gift.Prelude.{ℕ, ◌+◌, ◌≡◌, Bool, List, [], ◌∷◌, ◌++◌}
use perfect_gift.Logkit.Record.{Record}
use perfect_gift.Logkit.Options.{Options}
use perfect_gift.Logkit.Posting.{Outside, Shipper, lines}
use perfect_gift.Logkit.Spool.{decode}
use perfect_gift.Logkit.Shipper.{
  Event, received, flush_tick, retry_tick, flush_requested, closed, logged, outside_changed,
}
use perfect_gift.Logkit.Transport.{Head, head, heads, IsTransport}
use perfect_gift.Logkit.Tally.{count}

-- What is logged is in P, and the log server does not forget.
abbrev pub IsFair : {S : Type 0} → (Record → Type 0) → (S → List Head) → Event S → Type 0
IsFair P stored (logged r) = P r
IsFair {S} P stored (outside_changed change) =
    (s : S) → (more : List Head) × (stored (change s) ≡ stored s ++ more)
IsFair P stored received = Unit
IsFair P stored flush_tick = Unit
IsFair P stored retry_tick = Unit
IsFair P stored flush_requested = Unit
IsFair P stored closed = Unit

-- What one event, and a sequence of them, logs.
abbrev pub logs_one : {S : Type 0} → Event S → List Head
logs_one (logged r) = head r ∷ []
logs_one (outside_changed _) = []
logs_one received = []
logs_one flush_tick = []
logs_one retry_tick = []
logs_one flush_requested = []
logs_one closed = []

abbrev pub logs : {S : Type 0} → List (Event S) → List Head
logs [] = []
logs (e ∷ es) = logs_one e ++ logs es

module _ {S : Type 0} (out : Outside S) (opts : Options) {P : Record → Type 0} {limit : ℕ}
    {stored : S → List Head} (t : IsTransport out P limit stored) (p : Head → Bool) where
  -- The records that pass: stored, in the spool, in the batch, in the queue, and those dropped.
  abbrev pub accounted : Shipper S → ℕ
  accounted w =
      count p (stored w.outside)
      + count p (heads (decode out opts (lines w.spool)))
      + count p (heads w.batch)
      + count p (heads w.queue)
      + w.dropped

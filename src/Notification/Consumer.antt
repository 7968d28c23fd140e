-- ===== src/Notification/Consumer.antt =====
-- services/backend/notification/internal/notify/consumer.go: bus events become outbox rows, and a
-- message is acknowledged once its row is stored. The decoders of encoding/json are parameters.
use perfect_gift.Prelude.{ℕ, String, Option, none, some, Result, ok, err, Call}
use perfect_gift.Notification.Types.{
  PollCompletedEvent, IdeasReadyEvent, Outbox, NotifyError, wrapped, Marshal, poll_to_outbox,
  ideas_to_outbox,
}
use perfect_gift.Notification.Ports.{OutboxStore}

-- MessageHandler, of the raw event.
abbrev pub MessageHandler : Type 0 → Type 0
MessageHandler W = String → Call W NotifyError

-- Message: what happens to the delivery.
pub data Verdict : Type 0 where
  acked naked : Verdict

error_of : {A : Type 0} → Result NotifyError A → Option NotifyError
error_of (ok _) = none
error_of (err e) = some e

module _ {W : Type 0} (store : OutboxStore W) (now : W → ℕ) (marshal : Marshal) where
  -- enqueue: a row that was there already is as good as one that is inserted.
  enqueue : Result NotifyError Outbox → Call W NotifyError
  unfolding error_of
  enqueue (err e) w = (some e, w)
  enqueue (ok o) w = (error_of (store.enqueue_outbox o w).0, (store.enqueue_outbox o w).1)

  handle_poll : Result NotifyError PollCompletedEvent → Call W NotifyError
  unfolding enqueue
  handle_poll (err e) w = (some (wrapped "decode PollCompleted" e), w)
  handle_poll (ok e) w = enqueue (poll_to_outbox marshal (now w) e) w

  -- HandlePollCompleted
  unfoldable pub handle_poll_completed :
      (String → Result NotifyError PollCompletedEvent) → MessageHandler W
  unfolding handle_poll
  handle_poll_completed decode raw = handle_poll (decode raw)

  handle_ideas : Result NotifyError IdeasReadyEvent → Call W NotifyError
  unfolding enqueue
  handle_ideas (err e) w = (some (wrapped "decode IdeasReady" e), w)
  handle_ideas (ok e) w = enqueue (ideas_to_outbox marshal (now w) e) w

  -- HandleIdeasReady
  unfoldable pub handle_ideas_ready :
      (String → Result NotifyError IdeasReadyEvent) → MessageHandler W
  unfolding handle_ideas
  handle_ideas_ready decode raw = handle_ideas (decode raw)

verdict_of : Option NotifyError → Verdict
verdict_of none = acked
verdict_of (some e) = naked

-- Process
unfoldable pub process : {W : Type 0} → MessageHandler W → String → W → Verdict × W
unfolding verdict_of
process handler raw w = (verdict_of (handler raw w).0, (handler raw w).1)

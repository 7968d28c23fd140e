-- ===== src/Notification/Dispatcher.antt =====
-- services/backend/notification/internal/notify/dispatcher.go: claimed outbox rows are pushed to
-- the user's active devices, and each ends as sent, as failed or rescheduled. `now` reads the
-- clock.
pub mod Delivery
use perfect_gift.Prelude.{
  ℕ, ◌+◌, ◌-◌, ◌*◌, ◌%◌, ◌^◌, String, List, [], ◌∷◌, length, Bool, true, false, Option, none, some,
  Result, ok, err, Call, Exec, eqb, ltb, leb, if◌then◌else◌,
}
use perfect_gift.Notification.Types.{Device, Outbox, NotifyError, invalid_token, failure, wrapped}
use perfect_gift.Notification.Ports.{DeviceStore, OutboxStore, PushMessage, Pusher}

-- Durations in nanoseconds.
pub record DispatcherConfig : Type 0 where
  pub interval : ℕ
  pub lease : ℕ
  pub batch : ℕ
  pub max_attempts : ℕ
  pub base_backoff : ℕ

abbrev pub second : ℕ
second = 1_000_000_000

abbrev or_default : ℕ → ℕ → ℕ
or_default n d = if eqb n 0 then d else n

-- withDefaults; a negative value is read as 0 here.
unfoldable pub with_defaults : DispatcherConfig → DispatcherConfig
with_defaults c = record {
  interval = or_default c.interval second;
  lease = or_default c.lease (30 * second);
  batch = or_default c.batch 100;
  max_attempts = or_default c.max_attempts 6;
  base_backoff = or_default c.base_backoff (2 * second);
}

pub record Dispatcher (W : Type 0) : Type 0 where
  pub devices : DeviceStore W
  pub outbox : OutboxStore W
  pub pusher : Pusher W
  pub cfg : DispatcherConfig
  pub now : W → ℕ

-- BaseBackoff * time.Duration(1 << shift) on int64, as a bit pattern.
unfoldable pub backoff : DispatcherConfig → ℕ → ℕ
backoff cfg attempts =
    let shift = (if ltb attempts 1 then 1 else attempts) - 1 in
    (cfg.base_backoff * 2 ^ (if ltb 16 shift then 16 else shift)) % 2 ^ 64

-- time.Time.Add of a bit pattern.
unfoldable pub add_duration : ℕ → ℕ → ℕ
add_duration now d = if ltb d (2 ^ 63) then now + d else now - (2 ^ 64 - d)

-- errors.Is(err, ErrInvalidToken)
unfoldable pub is_invalid_token : NotifyError → Bool
is_invalid_token invalid_token = true
is_invalid_token (failure m) = false
is_invalid_token (wrapped m e) = is_invalid_token e

module _ {W : Type 0} (d : Dispatcher W) where
  -- What one push says of its row: has it failed for now? A dead token is pruned on the way.
  pub settle : Device → Option NotifyError → W → Bool × W
  settle dev none w = (false, w)
  settle dev (some e) w =
      if is_invalid_token e
      then (false, (d.devices.deactivate_device_by_token dev.push_token w).1)
      else (true, w)

  -- The loop over the devices.
  pub push_all : List Device → PushMessage → W → Bool × W
  unfolding settle
  push_all [] msg w = (false, w)
  push_all (dev ∷ devs) msg w =
      let settled = settle dev (d.pusher.push dev msg w).0 (d.pusher.push dev msg w).1 in
      let rest = push_all devs msg settled.1 in if settled.0 then (true, rest.1) else rest

  unfoldable pub retry : Outbox → Call W NotifyError
  unfolding backoff add_duration
  retry o w =
      let attempts = o.attempts + 1 in
      if leb d.cfg.max_attempts attempts
      then d.outbox.mark_failed o.id w
      else d.outbox.reschedule o.id attempts (add_duration (d.now w) (backoff d.cfg attempts)) w

  -- After the pushes.
  pub conclude : Outbox → Bool × W → Option NotifyError × W
  unfolding retry
  conclude o (true, w) = retry o w
  conclude o (false, w) = d.outbox.mark_sent o.id (d.now w) w

  pub to_devices : Outbox → Result NotifyError (List Device) → Call W NotifyError
  unfolding conclude push_all retry
  to_devices o (err _) w = retry o w
  to_devices o (ok devices) w =
      conclude o (push_all devices (record { type = o.type; payload = o.payload }) w)

  unfoldable pub dispatch : Outbox → Call W NotifyError
  unfolding to_devices
  dispatch o w = to_devices o (d.devices.active_devices_for_user o.user_id w) w

  -- The loop over a batch. The error of one row stops nothing.
  pub dispatch_all : List Outbox → W → W
  unfolding dispatch
  dispatch_all [] w = w
  dispatch_all (o ∷ os) w = dispatch_all os (dispatch o w).1

  swept : Result NotifyError (List Outbox) → Exec W NotifyError ℕ
  unfolding dispatch_all
  swept (err e) w = (err e, w)
  swept (ok rows) w = (ok (length rows), dispatch_all rows w)

  -- RunOnce
  unfoldable pub run_once : Exec W NotifyError ℕ
  unfolding swept
  run_once w =
      let claimed = d.outbox.claim_pending (d.now w) d.cfg.lease d.cfg.batch w in
      swept claimed.0 claimed.1

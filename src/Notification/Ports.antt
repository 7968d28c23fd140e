-- ===== src/Notification/Ports.antt =====
-- services/backend/notification/internal/notify/store.go and push.go: the interfaces of the service
-- over a state W, and the router that picks a provider by platform.
use Prim.Native.String.{◌++◌}
use perfect_gift.Prelude.{ℕ, String, List, Bool, Option, none, some, Result, Call, Exec}
use perfect_gift.Notification.Types.{
  Platform, ios, android, other_platform, Kind, Device, Outbox, NotifyError, failure,
}

-- DeviceStore. The read changes nothing.
pub record DeviceStore (W : Type 0) : Type 0 where
  pub upsert_device : Device → ℕ → Exec W NotifyError Device
  pub deactivate_device_by_token : String → Call W NotifyError
  pub active_devices_for_user : String → W → Result NotifyError (List Device)

-- OutboxStore
pub record OutboxStore (W : Type 0) : Type 0 where
  pub enqueue_outbox : Outbox → Exec W NotifyError Bool
  pub claim_pending : ℕ → ℕ → ℕ → Exec W NotifyError (List Outbox)
  pub mark_sent : String → ℕ → Call W NotifyError
  pub reschedule : String → ℕ → ℕ → Call W NotifyError
  pub mark_failed : String → Call W NotifyError

pub record PushMessage : Type 0 where
  pub type : Kind
  pub payload : String

-- Pusher
pub record Pusher (W : Type 0) : Type 0 where
  pub push : Device → PushMessage → Call W NotifyError

-- string(platform)
platform_text : Platform → String
platform_text ios = "ios"
platform_text android = "android"
platform_text (other_platform p) = p

-- Router.Push; `quote` is fmt's %q, and a nil provider counts as none.
route :
    {W : Type 0} → (String → String) → Option (Pusher W) → Device → PushMessage → Call W NotifyError
unfolding platform_text
route quote none device msg w =
    (some (failure ("no push provider for platform " ++ quote (platform_text device.platform))), w)
route quote (some p) device msg w = p.push device msg w

unfoldable pub router : {W : Type 0} → (String → String) → (Platform → Option (Pusher W)) → Pusher W
unfolding route
router quote by_platform = record {
  push = λ device msg. route quote (by_platform device.platform) device msg;
}

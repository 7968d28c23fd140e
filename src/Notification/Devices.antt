-- ===== src/Notification/Devices.antt =====
-- services/backend/notification/internal/app/notification_server.go: the registration of devices.
-- The texts of wrapped errors are fmt's %v, a parameter.
pub mod Ownership
use Prim.Native.String.{◌++◌}
use perfect_gift.Prelude.{
  ℕ, String, Bool, true, false, Option, none, some, Exec, pure, refuse_if, try_exec, try_call,
  ◌>>=◌, ◌>>◌, ◌==◌, Result, ok, err,
}
use perfect_gift.Grpc
use perfect_gift.Grpc.{fail_with, invalid_argument, internal}
use perfect_gift.Notification.Types.{Platform, ios, android, other_platform, Device, NotifyError}
use perfect_gift.Notification.Ports.{DeviceStore}

pub data PlatformMessage : Type 0 where
  platform_unspecified platform_ios platform_android : PlatformMessage

-- The request of RegisterDevice.
pub record Registration : Type 0 where
  pub user_id : String
  pub platform : PlatformMessage
  pub push_token : String
  pub app_version : String

unfoldable pub platform_from_proto : PlatformMessage → Option Platform
platform_from_proto platform_ios = some ios
platform_from_proto platform_android = some android
platform_from_proto _ = none

-- The fields that the handler leaves are Go's zero values.
abbrev pub device_of : Registration → Platform → Device
device_of req platform = record {
  id = "";
  user_id = req.user_id;
  platform = platform;
  push_token = req.push_token;
  app_version = req.app_version;
  registered_at = 0;
  last_seen_at = 0;
  active = false;
}

module _ {W : Type 0} (devices : DeviceStore W) (now : W → ℕ) (show : NotifyError → String) where
  register_on : Registration → Option Platform → Exec W Grpc.Status String
  register_on req none w = (err (fail_with invalid_argument "platform must be ios or android"), w)
  register_on req (some platform) w =
      (do
        d ←
            try_exec (λ e. fail_with internal ("register device: " ++ show e))
              (devices.upsert_device (device_of req platform) (now w))
        pure d.id)
        w

  -- RegisterDevice
  unfoldable pub register_device : Registration → Exec W Grpc.Status String
  unfolding register_on platform_from_proto
  register_device req = do
    refuse_if (req.user_id == "") (fail_with invalid_argument "user_id is required")
    refuse_if (req.push_token == "") (fail_with invalid_argument "push_token is required")
    register_on req (platform_from_proto req.platform)

  -- UnregisterDevice
  unfoldable pub unregister_device : String → Exec W Grpc.Status Bool
  unregister_device token = do
    refuse_if (token == "") (fail_with invalid_argument "push_token is required")
    try_call (λ e. fail_with internal ("unregister device: " ++ show e))
        (devices.deactivate_device_by_token token)
    pure true

-- ===== src/Notification/Devices/Ownership.antt =====
-- Whose device a push token reaches, over the tables.
use perfect_gift.Prelude.{
  ℕ, String, List, [], ◌∷◌, ◌++◌, keep, Bool, true, false, ◌&&◌, ◌≡◌, ◌≢◌, refl, some, ok, arith,
  eq_iff, eq_refl, ◌==◌, Bool-cases, inl, inr,
}
use perfect_gift.Notification.Types.{Platform, Device, NotifyError, ios, android, other_platform}
use perfect_gift.Notification.Tables.{
  active_devices_for_user, Tables, device_store, exists_row, update_rows, upsert_device,
  deactivate_device_by_token, is_target,
}
use perfect_gift.Notification.Devices.{
  Registration, register_device, unregister_device, platform_from_proto, device_of,
}

-- The devices that a push to a user reaches, of those with a property.
abbrev pub reached : (Device → Bool) → String → List Device → List Device
reached p user_id rows = keep p (keep (λ row. row.user_id == user_id && row.active) rows)

deactivated-reached :
    (token user_id : String) (rows : List Device)
    → reached
        (λ row. row.push_token == token)
        user_id
        (update_rows
          (λ (row : Device). row.push_token == token)
          (λ row. record row { active = false })
          rows)
      ≡ []
deactivated-reached token user_id [] = refl
deactivated-reached token user_id (row ∷ rows) =
    ground (arith, deactivated-reached token user_id rows)

-- After UnregisterDevice succeeds, no push to any user reaches a device with the token.
pub unregistered_unreached :
    (new_id token user_id : String) (now : Tables → ℕ) (show : NotifyError → String) (t u : Tables)
    (done : Bool)
    → unregister_device (device_store new_id) now show token t ≡ (ok done, u)
    → reached (λ row. row.push_token == token) user_id u.devices ≡ []
unfolding unregister_device deactivate_device_by_token
unregistered_unreached new_id token user_id now show t u done h =
    ground (arith, eq_iff token "", deactivated-reached token user_id t.devices)

module _ (platform : Platform) (token owner other : String) (differ : owner ≢ other) where
  refreshed-reached :
      (app : String) (now : ℕ) (rows : List Device)
      → reached (is_target platform token) other (
          update_rows
            (is_target platform token)
            (λ (row : Device). record row {
              user_id = owner;
              app_version = app;
              last_seen_at = now;
              active = true;
            })
            rows)
        ≡ []
  unfolding is_target
  refreshed-reached app now [] = refl
  refreshed-reached app now (row ∷ rows) =
      ground (arith, eq_iff owner other, refreshed-reached app now rows)

  added-reached :
      (row : Device) (rows : List Device)
      → exists_row (is_target platform token) rows ≡ false
      → row.user_id ≡ owner
      → reached (is_target platform token) other (rows ++ row ∷ []) ≡ []
  added-reached row [] none_yet own = ground (arith, eq_iff owner other)
  added-reached row (q ∷ qs) none_yet own = ground (arith, added-reached row qs)

refreshed-exists :
    (platform : Platform) (token owner app : String) (now : ℕ) (rows : List Device)
    → exists_row (is_target platform token) rows ≡ true
    → exists_row
        (λ row. is_target platform token row && (row.user_id == owner && row.active))
        (update_rows
          (is_target platform token)
          (λ (row : Device). record row {
            user_id = owner;
            app_version = app;
            last_seen_at = now;
            active = true;
          })
          rows)
      ≡ true
unfolding is_target
refreshed-exists platform token owner app now [] h = absurd (cc)
refreshed-exists platform token owner app now (row ∷ rows) h =
    ground (arith, eq_refl owner, refreshed-exists platform token owner app now rows)

exists-append :
    (p : Device → Bool) (row : Device) (rows : List Device)
    → p row ≡ true
    → exists_row p (rows ++ row ∷ []) ≡ true
exists-append p row [] h = ground arith
exists-append p row (q ∷ qs) h = ground (arith, exists-append p row qs h)

is_target-own :
    (platform : Platform) (token : String) (row : Device)
    → row.platform ≡ platform
    → row.push_token ≡ token
    → is_target platform token row ≡ true
unfolding is_target
is_target-own ios token row p q = ground (arith, eq_iff row.push_token token)
is_target-own android token row p q = ground (arith, eq_iff row.push_token token)
is_target-own (other_platform n) token row p q =
    ground (arith, eq_iff row.push_token token, eq_refl n)

exists-keep :
    (p q : Device → Bool) (rows : List Device)
    → exists_row (λ row. p row && q row) rows ≡ true
    → exists_row p (keep q rows) ≡ true
exists-keep p q [] h = absurd (cc)
exists-keep p q (row ∷ rows) h = ground (arith, exists-keep p q rows)

none-keep : (p : Device → Bool) (rows : List Device) → keep p rows ≡ [] → exists_row p rows ≡ false
none-keep p [] h = refl
none-keep p (row ∷ rows) h = ground (arith, none-keep p rows)

upsert-owned :
    (new_id : String) (d : Device) (now : ℕ) (t : Tables) (other : String)
    → d.user_id ≢ other
    → let u = (upsert_device new_id d now t).1 in
      (exists_row
          (λ row. is_target d.platform d.push_token row && (row.user_id == d.user_id && row.active))
          u.devices
        ≡ true)
      × (reached (is_target d.platform d.push_token) other u.devices ≡ [])
unfolding upsert_device
upsert-owned new_id d now t other differ =
    elim (Bool-cases (exists_row (is_target d.platform d.push_token) t.devices)) [
      | inl held ↦ rw held (
        refreshed-exists d.platform d.push_token d.user_id d.app_version now t.devices held,
        refreshed-reached d.platform d.push_token d.user_id other differ d.app_version now
            t.devices,
      )
      | inr free ↦ rw free (
        exists-append _
            (record d { id = new_id; registered_at = now; last_seen_at = now; active = true })
            t.devices
            (ground (arith, eq_refl d.user_id, is_target-own d.platform d.push_token d refl refl)),
        added-reached d.platform d.push_token d.user_id other differ
            (record d { id = new_id; registered_at = now; last_seen_at = now; active = true })
            t.devices free refl,
      )
    ]

-- After RegisterDevice succeeds, ActiveDevicesForUser of the caller holds the device with the
-- platform and the token, and that of any other user does not, whoever had registered it before.
pub registered_owned :
    (new_id : String) (req : Registration) (platform : Platform) (now : Tables → ℕ)
    (show : NotifyError → String) (t u : Tables) (id other : String)
    → platform_from_proto req.platform ≡ some platform
    → register_device (device_store new_id) now show req t ≡ (ok id, u)
    → req.user_id ≢ other
    → ((own : List Device) × (active_devices_for_user req.user_id u ≡ ok own)
        × (exists_row (is_target platform req.push_token) own ≡ true))
      × ((theirs : List Device) × (active_devices_for_user other u ≡ ok theirs)
          × (exists_row (is_target platform req.push_token) theirs ≡ false))
unfolding register_device active_devices_for_user
registered_owned new_id req platform now show t u id other known h differ = (
  (
    _,
    refl,
    exists-keep (is_target platform req.push_token)
        (λ row. row.user_id == req.user_id && row.active) u.devices owned.0,
  ),
  (
    _,
    refl,
    none-keep (is_target platform req.push_token)
        (keep (λ row. row.user_id == other && row.active) u.devices) owned.1,
  ),
)
  where
    same : (upsert_device new_id (device_of req platform) (now t) t).1 ≡ u
    same = ground (arith, eq_iff req.user_id "", eq_iff req.push_token "")

    owned :
        (exists_row
            (λ row.
              is_target platform req.push_token row && (row.user_id == req.user_id && row.active))
            u.devices
          ≡ true)
        × (reached (is_target platform req.push_token) other u.devices ≡ [])
    owned = rw (← same) (upsert-owned new_id (device_of req platform) (now t) t other differ)

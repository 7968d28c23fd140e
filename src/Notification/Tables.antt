-- ===== src/Notification/Tables.antt =====
-- services/backend/notification/internal/domain/postgres/postgres.go: the tables of devices and of
-- notifications, and each method as its one SQL statement. A failing database is left to the
-- interface (`Notification.Ports`). Rows stand in the order of their insertion; the id that the
-- database draws for a new row is an argument. A row-level lock is never met: a statement is one
-- step.
pub mod Dedupe
pub mod Leases
use perfect_gift.Prelude.{
  ℕ, zero, suc, ◌+◌, String, List, [], ◌∷◌, ◌++◌, map, keep, Bool, true, false, ◌&&◌, ◌||◌, Option,
  none, some, Result, ok, err, Exec, Call, ◌==◌, leb, if◌then◌else◌,
}
use perfect_gift.Notification.Types.{
  Platform, ios, android, other_platform, Device, Status, pending, sent, failed, Outbox,
  NotifyError, failure,
}
use perfect_gift.Notification.Ports.{DeviceStore, OutboxStore}

pub record Tables : Type 0 where
  pub devices : List Device
  pub notifications : List Outbox

abbrev pub empty_tables : Tables
empty_tables = record { devices = []; notifications = [] }

-- Is there a row that passes?
abbrev pub exists_row : {A : Type 0} → (A → Bool) → List A → Bool
exists_row p [] = false
exists_row p (x ∷ xs) = p x || exists_row p xs

-- UPDATE ... WHERE
abbrev pub update_rows : {A : Type 0} → (A → Bool) → (A → A) → List A → List A
update_rows p f [] = []
update_rows p f (x ∷ xs) = (if p x then f x else x) ∷ update_rows p f xs

-- platform = $2
same_platform : Platform → Platform → Bool
same_platform ios ios = true
same_platform android android = true
same_platform (other_platform p) (other_platform q) = p == q
same_platform _ _ = false

unfoldable pub is_target : Platform → String → Device → Bool
unfolding same_platform
is_target platform token row = same_platform platform row.platform && row.push_token == token

-- The columns that ON CONFLICT DO UPDATE sets.
abbrev refreshed : Device → ℕ → Device → Device
refreshed d now row = record row {
  user_id = d.user_id;
  app_version = d.app_version;
  last_seen_at = now;
  active = true;
}

-- The caller's device with the columns of RETURNING.
returned : Device → Device → List Device → Device
returned d fallback [] = fallback
returned d fallback (row ∷ rows) =
    let rest = returned d fallback rows in
    if is_target d.platform d.push_token row
    then record d {
      id = row.id;
      registered_at = row.registered_at;
      last_seen_at = row.last_seen_at;
      active = row.active;
    }
    else rest

inserted : String → Device → ℕ → Device
inserted new_id d now = record d {
  id = new_id;
  registered_at = now;
  last_seen_at = now;
  active = true;
}

unfoldable pub upsert_device : String → Device → ℕ → Exec Tables NotifyError Device
unfolding is_target returned inserted
upsert_device new_id d now t =
    if exists_row (is_target d.platform d.push_token) t.devices
    then (let rows = update_rows (is_target d.platform d.push_token) (refreshed d now) t.devices in
        (ok (returned d d rows), record t { devices = rows }))
    else (
      ok (inserted new_id d now),
      record t { devices = t.devices ++ inserted new_id d now ∷ [] },
    )

unfoldable pub deactivate_device_by_token : String → Call Tables NotifyError
deactivate_device_by_token token t = (
  none,
  record t {
    devices =
        update_rows (λ (row : Device). row.push_token == token)
          (λ row. record row { active = false }) t.devices;
  },
)

unfoldable pub active_devices_for_user : String → Tables → Result NotifyError (List Device)
active_devices_for_user user_id t =
    ok (keep (λ row. row.user_id == user_id && row.active) t.devices)

has_key : String → Outbox → Bool
has_key key row = row.dedupe_key == key

-- ON CONFLICT (dedupe_key) DO NOTHING; the insert's status and attempts are fixed.
unfoldable pub enqueue_outbox : String → Outbox → Exec Tables NotifyError Bool
unfolding has_key
enqueue_outbox new_id o t =
    if exists_row (has_key o.dedupe_key) t.notifications then (ok false, t) else (
      ok true,
      record t {
        notifications =
            t.notifications
            ++ record o { id = new_id; status = pending; attempts = 0; sent_at = none } ∷ [];
      },
    )

abbrev pub is_pending : Status → Bool
is_pending pending = true
is_pending _ = false

-- WHERE status = 'pending' AND next_attempt_at <= $1
unfoldable pub is_due : ℕ → Outbox → Bool
is_due now row = is_pending row.status && leb row.next_attempt_at now

-- ORDER BY next_attempt_at; rows of one time stay in the order of insertion.
insert_by_time : Outbox → List Outbox → List Outbox
insert_by_time r [] = r ∷ []
insert_by_time r (q ∷ qs) =
    if leb r.next_attempt_at q.next_attempt_at then r ∷ q ∷ qs else q ∷ insert_by_time r qs

sort_by_time : List Outbox → List Outbox
unfolding insert_by_time
sort_by_time [] = []
sort_by_time (r ∷ rs) = insert_by_time r (sort_by_time rs)

-- LIMIT
abbrev pub take : {A : Type 0} → ℕ → List A → List A
take zero xs = []
take (suc n) [] = []
take (suc n) (x ∷ xs) = x ∷ take n xs

-- The ids of the subquery.
pub due_ids : ℕ → ℕ → List Outbox → List String
unfolding sort_by_time is_due
due_ids now limit rows = map (λ r. r.id) (take limit (sort_by_time (keep (is_due now) rows)))

-- id IN (...)
abbrev pub is_among : List String → Outbox → Bool
is_among ids row = exists_row (λ id. row.id == id) ids

leased : ℕ → Outbox → Outbox
leased until row = record row { next_attempt_at = until }

-- The rows come back as they are after the update, in the order of the table.
unfoldable pub claim_pending : ℕ → ℕ → ℕ → Exec Tables NotifyError (List Outbox)
unfolding due_ids leased
claim_pending now lease limit t =
    let ids = due_ids now limit t.notifications in
    let rows = update_rows (is_among ids) (leased (now + lease)) t.notifications in
    (ok (keep (is_among ids) rows), record t { notifications = rows })

-- execOne: no row under the id is an error.
unfoldable pub exec_one : String → (Outbox → Outbox) → Call Tables NotifyError
exec_one id f t = (
  if exists_row (λ (row : Outbox). row.id == id) t.notifications
      then none
      else some (failure "no row updated"),
  record t { notifications = update_rows (λ (row : Outbox). row.id == id) f t.notifications },
)

-- What the three updates set.
abbrev pub as_sent : ℕ → Outbox → Outbox
as_sent at row = record row { status = sent; sent_at = some at }

abbrev pub as_rescheduled : ℕ → ℕ → Outbox → Outbox
as_rescheduled attempts next row = record row {
  status = pending;
  attempts = attempts;
  next_attempt_at = next;
}

abbrev pub as_failed : Outbox → Outbox
as_failed row = record row { status = failed }

unfoldable pub mark_sent : String → ℕ → Call Tables NotifyError
unfolding exec_one
mark_sent id at = exec_one id (as_sent at)

unfoldable pub reschedule : String → ℕ → ℕ → Call Tables NotifyError
unfolding exec_one
reschedule id attempts next = exec_one id (as_rescheduled attempts next)

unfoldable pub mark_failed : String → Call Tables NotifyError
unfolding exec_one
mark_failed id = exec_one id as_failed

-- The tables as DeviceStore and OutboxStore, with the id that the next insert draws.
abbrev pub device_store : String → DeviceStore Tables
device_store new_id = record {
  upsert_device = upsert_device new_id;
  deactivate_device_by_token = deactivate_device_by_token;
  active_devices_for_user = active_devices_for_user;
}

abbrev pub outbox_store : String → OutboxStore Tables
outbox_store new_id = record {
  enqueue_outbox = enqueue_outbox new_id;
  claim_pending = claim_pending;
  mark_sent = mark_sent;
  reschedule = reschedule;
  mark_failed = mark_failed;
}

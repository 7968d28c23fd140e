-- ===== src/Tests/Notices.antt =====
-- The notification service at concrete inputs.
use perfect_gift.Prelude.{
  false, ℕ, suc, List, [], ◌∷◌, true, ◌≡◌, ◌≢◌, refl, none, some, Result, ok, All, eq_iff, arith,
}
use perfect_gift.Notification.Types.{
  Device, Outbox, ios, pending, sent, NotifyError, failure, PollCompletedEvent, Marshal,
  poll_completed, poll_key, poll_to_outbox,
}
use perfect_gift.Notification.Ports.{Pusher}
use perfect_gift.Notification.Consumer.{process, handle_poll_completed}
use perfect_gift.Notification.Dispatcher.{DispatcherConfig, retry}
use perfect_gift.Notification.Dispatcher.Delivery.{World, over_tables, row_of, late_retry_reopens}
use perfect_gift.Notification.Dispatcher.Delivery.Ending.{HasEnded, deliver, deliver_ends}
use perfect_gift.Notification.Tables.{
  active_devices_for_user, Tables, empty_tables, enqueue_outbox, claim_pending, mark_sent,
  device_store, exists_row, is_target, upsert_device,
}
use perfect_gift.Notification.Tables.Dedupe.{here, next, sends, rows_under, acked_exactly_once}
use perfect_gift.Notification.Tables.Leases.{leases_disjoint}
use perfect_gift.Notification.Devices.{Registration, platform_ios, register_device}
use perfect_gift.Notification.Devices.Ownership.{registered_owned}

abbrev marshal : Marshal
marshal fields = ok "json"

abbrev poll_event : PollCompletedEvent
poll_event = record {
  poll_id = "p1";
  surprise_request_id = "r1";
  owner_user_id = "ann";
  completed_at = 0;
}

abbrev poll_row : Outbox
poll_row = record {
  id = "n1";
  user_id = "ann";
  type = poll_completed;
  payload = "json";
  dedupe_key = "poll_completed:p1:ann";
  status = pending;
  attempts = 0;
  next_attempt_at = 3;
  created_at = 3;
  sent_at = none;
}

abbrev one_row : Tables
one_row = record { devices = []; notifications = poll_row ∷ [] }

acked_exactly_once_example :
    (e : PollCompletedEvent) × (◌≡◌ {A = Result NotifyError PollCompletedEvent}
      (ok poll_event)
      (ok e))
    × (rows_under (poll_key e) (mark_sent "n1" 4 one_row).1.notifications ≡ 1)
unfolding process handle_poll_completed enqueue_outbox poll_to_outbox mark_sent
acked_exactly_once_example =
    acked_exactly_once "n1" "raw" (λ t. 3) marshal (λ raw. ok poll_event) empty_tables
      (mark_sent "n1" 4 one_row).1 here refl (next here (sends "n1" 4))

abbrev config : DispatcherConfig
config = record { interval = 1; lease = 10; batch = 5; max_attempts = 2; base_backoff = 4 }

abbrev phone : Device
phone = record {
  id = "d1";
  user_id = "ann";
  platform = ios;
  push_token = "t1";
  app_version = "1";
  registered_at = 0;
  last_seen_at = 0;
  active = true;
}

-- A provider that is always down, and counts.
abbrev down : Pusher ℕ
down = record { push = λ dev msg n. (some (failure "down"), suc n) }

abbrev start : World ℕ
start = record {
  tables = record { devices = phone ∷ []; notifications = poll_row ∷ [] };
  provider = 0;
}

deliver_ends_example :
    HasEnded "new" down config (λ w. 5) "n1" (deliver "new" down config (λ w. 5) 2 "n1" start)
unfolding row_of
deliver_ends_example =
    deliver_ends "new" down config (λ w. 5) 2 "n1" poll_row start refl (omega arith) (omega arith)

abbrev after_other : World ℕ
after_other = record start { tables = (mark_sent "n1" 4 start.tables).1 }

late_retry_reopens_example :
    (q : Outbox) × (row_of "n1"
        (retry (over_tables "new" down config (λ w. 5)) poll_row after_other).1.tables.notifications
      ≡ some q)
    × (q.status ≡ pending)
unfolding row_of mark_sent
late_retry_reopens_example =
    late_retry_reopens "new" down config (λ w. 5) poll_row
      (record poll_row { status = sent; sent_at = some 4 }) after_other refl refl (omega arith)

-- Two rows, of which the second is due later.
abbrev two_rows : Tables
two_rows = record {
  devices = [];
  notifications =
      poll_row ∷ record poll_row { id = "n2"; dedupe_key = "k2"; next_attempt_at = 5 } ∷ [];
}

abbrev first_claim : List Outbox
first_claim = record poll_row { next_attempt_at = 13 } ∷ []

abbrev second_claim : List Outbox
second_claim = record poll_row { id = "n2"; dedupe_key = "k2"; next_attempt_at = 15 } ∷ []

leases_disjoint_example :
    All (λ (q : Outbox). All (λ (r : Outbox). q.id ≢ r.id) first_claim) second_claim
unfolding claim_pending
leases_disjoint_example =
    leases_disjoint 3 5 10 10 5 5 two_rows first_claim second_claim (omega arith) refl refl

abbrev bobs : Registration
bobs = record { user_id = "bob"; platform = platform_ios; push_token = "t1"; app_version = "2" }

abbrev registered : Tables
registered = (register_device (device_store "d2") (λ t. 7) (λ e. "") bobs start.tables).1

registered_owned_example :
    ((own : List Device) × (active_devices_for_user "bob" registered ≡ ok own)
      × (exists_row (is_target ios "t1") own ≡ true))
    × ((theirs : List Device) × (active_devices_for_user "ann" registered ≡ ok theirs)
        × (exists_row (is_target ios "t1") theirs ≡ false))
unfolding register_device upsert_device is_target
registered_owned_example =
    registered_owned "d2" bobs ios (λ t. 7) (λ e. "") start.tables registered "d1" "ann" refl refl
      (ground (arith, eq_iff "bob" "ann"))

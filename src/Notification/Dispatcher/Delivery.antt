-- ===== src/Notification/Dispatcher/Delivery.antt =====
-- How a row stands after its dispatch, over the tables and any push provider.
pub mod Ending
use perfect_gift.Prelude.{
  ℕ, zero, suc, ◌+◌, ◌≤◌, ◌<◌, String, List, [], ◌∷◌, Bool, true, false, ◌≡◌, ◌⊎◌, refl, ap, ◌∙◌,
  sym, subst, Option, none, some, Bool-cases, Result, ok, err, inl, inr, arith, eq_iff, ◌==◌,
  if◌then◌else◌, Call, leb,
}
use perfect_gift.Notification.Types.{Device, Outbox, NotifyError, pending, sent}
use perfect_gift.Notification.Ports.{PushMessage, Pusher}
use perfect_gift.Notification.Tables.{
  Tables, device_store, outbox_store, deactivate_device_by_token, mark_sent, reschedule,
  mark_failed, exec_one, update_rows, as_sent, as_rescheduled, as_failed, is_pending,
}
use perfect_gift.Notification.Dispatcher.{
  Dispatcher, DispatcherConfig, push_all, settle, retry, conclude, to_devices, dispatch, backoff,
  add_duration,
}

-- The tables beside the providers' own state.
pub record World (M : Type 0) : Type 0 where
  pub tables : Tables
  pub provider : M

abbrev on_tables : {M : Type 0} → Call Tables NotifyError → Call (World M) NotifyError
on_tables f w = ((f w.tables).0, record w { tables = (f w.tables).1 })

-- A dispatcher over the tables: the provider sees its own state alone.
abbrev pub over_tables :
    {M : Type 0} → String → Pusher M → DispatcherConfig → (World M → ℕ) → Dispatcher (World M)
over_tables new_id p cfg now = record {
  devices = record {
    upsert_device = λ d at w. (
      ((device_store new_id).upsert_device d at w.tables).0,
      record w { tables = ((device_store new_id).upsert_device d at w.tables).1 },
    );
    deactivate_device_by_token = λ token. on_tables (deactivate_device_by_token token);
    active_devices_for_user = λ user w. (device_store new_id).active_devices_for_user user w.tables;
  };
  outbox = record {
    enqueue_outbox = λ o w. (
      ((outbox_store new_id).enqueue_outbox o w.tables).0,
      record w { tables = ((outbox_store new_id).enqueue_outbox o w.tables).1 },
    );
    claim_pending = λ at lease limit w. (
      ((outbox_store new_id).claim_pending at lease limit w.tables).0,
      record w { tables = ((outbox_store new_id).claim_pending at lease limit w.tables).1 },
    );
    mark_sent = λ id at. on_tables (mark_sent id at);
    reschedule = λ id attempts next. on_tables (reschedule id attempts next);
    mark_failed = λ id. on_tables (mark_failed id);
  };
  pusher = record {
    push = λ dev msg w.
        ((p.push dev msg w.provider).0, record w { provider = (p.push dev msg w.provider).1 });
  };
  cfg = cfg;
  now = now;
}

-- The row under an id.
unfoldable pub row_of : String → List Outbox → Option Outbox
row_of id [] = none
row_of id (r ∷ rs) = let rest = row_of id rs in if r.id == id then some r else rest

-- An update that keeps ids, seen at its own row.
row_of-update :
    (id : String) (f : Outbox → Outbox) (r : Outbox)
    → ((q : Outbox) → (f q).id ≡ q.id)
    → (rows : List Outbox) → row_of id rows ≡ some r
    → row_of id (update_rows (λ (q : Outbox). q.id == id) f rows) ≡ some (f r)
unfolding row_of
row_of-update id f r keeps [] h = absurd (cc)
row_of-update id f r keeps (q ∷ qs) h = ground (arith, keeps q, row_of-update id f r keeps qs)

exec_one-row :
    (id : String) (f : Outbox → Outbox) (r : Outbox)
    → ((q : Outbox) → (f q).id ≡ q.id)
    → (t : Tables) → row_of id t.notifications ≡ some r
    → row_of id (exec_one id f t).1.notifications ≡ some (f r)
unfolding exec_one
exec_one-row id f r keeps t h = row_of-update id f r keeps t.notifications h

module _ {M : Type 0} (new_id : String) (p : Pusher M) (cfg : DispatcherConfig)
    (now : World M → ℕ) where
  abbrev d : Dispatcher (World M)
  d = over_tables new_id p cfg now

  settle-notifications :
      (dev : Device) (o : Option NotifyError) (w : World M)
      → (settle d dev o w).1.tables.notifications ≡ w.tables.notifications
  unfolding settle deactivate_device_by_token
  settle-notifications dev none w = refl
  settle-notifications dev (some e) w = ground arith

  push_all-notifications :
      (devs : List Device) (msg : PushMessage) (w : World M)
      → (push_all d devs msg w).1.tables.notifications ≡ w.tables.notifications
  unfolding push_all
  push_all-notifications [] msg w = refl
  push_all-notifications (dev ∷ devs) msg w =
      let pushed = d.pusher.push dev msg w in
      ground (
        arith,
        settle-notifications dev pushed.0 pushed.1,
        push_all-notifications devs msg (settle d dev pushed.0 pushed.1).1,
      )

  -- How a row of the table stands after its dispatch.
  abbrev pub Settles : Outbox → Outbox → World M → Type 0
  Settles o r w =
      ((at : ℕ) × (row_of o.id w.tables.notifications ≡ some (as_sent at r)))
      ⊎ (((cfg.max_attempts ≤ o.attempts + 1)
            × (row_of o.id w.tables.notifications ≡ some (as_failed r)))
          ⊎ ((o.attempts + 1 < cfg.max_attempts)
              × (next : ℕ) × (row_of o.id w.tables.notifications
                  ≡ some (as_rescheduled (o.attempts + 1) next r))))

  retry-Settles :
      (o r : Outbox) (w : World M)
      → row_of o.id w.tables.notifications ≡ some r
      → Settles o r (retry d o w).1
  unfolding retry mark_failed reschedule
  retry-Settles o r w known = elim (Bool-cases (leb cfg.max_attempts (o.attempts + 1))) [
    | inl spent ↦
        rw spent
          (inr (inl (ground arith, exec_one-row o.id as_failed r (λ q. refl) w.tables known)))
    | inr more ↦
        let next = add_duration (now w) (backoff cfg (o.attempts + 1)) in
        rw more (
          inr (
            inr (
              ground arith,
              next,
              exec_one-row o.id (as_rescheduled (o.attempts + 1) next) r (λ q. refl) w.tables known,
            )))
  ]

  -- A retry does not look at how the row stands by then: a dispatcher that claimed the row and then
  -- fails makes it pending again, also where another one has marked it sent in the meantime.
  pub late_retry_reopens :
      (o r : Outbox) (w : World M)
      → row_of o.id w.tables.notifications ≡ some r
      → r.status ≡ sent
      → o.attempts + 1 < cfg.max_attempts
      → (q : Outbox) × (row_of o.id (retry d o w).1.tables.notifications ≡ some q)
        × (q.status ≡ pending)
  unfolding retry reschedule
  late_retry_reopens o r w known delivered more =
      let next = add_duration (now w) (backoff cfg (o.attempts + 1)) in
      let test : leb cfg.max_attempts (o.attempts + 1) ≡ false = ground arith in
      (
        as_rescheduled (o.attempts + 1) next r,
        rw test
            (exec_one-row o.id (as_rescheduled (o.attempts + 1) next) r (λ q. refl) w.tables known),
        refl,
      )

  conclude-Settles :
      (o r : Outbox) (transient : Bool) (w : World M)
      → row_of o.id w.tables.notifications ≡ some r
      → Settles o r (conclude d o (transient, w)).1
  unfolding conclude mark_sent
  conclude-Settles o r true w known = retry-Settles o r w known
  conclude-Settles o r false w known =
      inl (now w, exec_one-row o.id (as_sent (now w)) r (λ q. refl) w.tables known)

  to_devices-Settles :
      (o r : Outbox) (devs : Result NotifyError (List Device)) (w : World M)
      → row_of o.id w.tables.notifications ≡ some r
      → Settles o r (to_devices d o devs w).1
  unfolding to_devices
  to_devices-Settles o r (err e) w known = retry-Settles o r w known
  to_devices-Settles o r (ok devs) w known =
      let msg : PushMessage = record { type = o.type; payload = o.payload } in
      conclude-Settles o r (push_all d devs msg w).0 (push_all d devs msg w).1
        (ap (row_of o.id) (push_all-notifications devs msg w) ∙ known)

  pub dispatch-Settles :
      (o r : Outbox) (w : World M)
      → row_of o.id w.tables.notifications ≡ some r
      → Settles o r (dispatch d o w).1
  unfolding dispatch
  dispatch-Settles o r w known = to_devices-Settles o r _ w known

-- ===== src/Notification/Tables/Dedupe.antt =====
-- One row for one event: what the unique key keeps under every sequence of writes.
use perfect_gift.Prelude.{
  ℕ, ◌+◌, ◌≤◌, String, List, [], ◌∷◌, ◌++◌, keep, length, Bool, true, false, ◌≡◌, ◌⊎◌, refl, sym,
  subst, Result-cases, ok, arith, eq_iff, eq_refl, ◌==◌, Bool-cases, inl, inr, Result, none,
}
use perfect_gift.Notification.Types.{
  Device, Outbox, pending, NotifyError, PollCompletedEvent, Marshal, poll_key, poll_to_outbox,
}
use perfect_gift.Notification.Consumer.{Verdict, acked, process, handle_poll_completed}
use perfect_gift.Notification.Tables.{
  Tables, empty_tables, exists_row, update_rows, has_key, enqueue_outbox, claim_pending, mark_sent,
  reschedule, mark_failed, upsert_device, deactivate_device_by_token, outbox_store, exec_one,
  as_sent, as_rescheduled, as_failed, leased,
}

-- Any method that writes, with any arguments.
pub data Step (t : Tables) : Tables → Type 0 where
  upserts : (new_id : String) (d : Device) (now : ℕ) → Step t (upsert_device new_id d now t).1
  deactivates : (token : String) → Step t (deactivate_device_by_token token t).1
  enqueues : (new_id : String) (o : Outbox) → Step t (enqueue_outbox new_id o t).1
  claims : (now lease limit : ℕ) → Step t (claim_pending now lease limit t).1
  sends : (id : String) (at : ℕ) → Step t (mark_sent id at t).1
  reschedules : (id : String) (attempts next : ℕ) → Step t (reschedule id attempts next t).1
  fails : (id : String) → Step t (mark_failed id t).1

pub data Reach (t : Tables) : Tables → Type 0 where
  here : Reach t t
  next : {u v : Tables} → Reach t u → Step u v → Reach t v

-- How many rows have the key.
abbrev pub rows_under : String → List Outbox → ℕ
rows_under key rows = length (keep (λ row. row.dedupe_key == key) rows)

rows_under-append :
    (key : String) (rows : List Outbox) (r : Outbox)
    → rows_under key (rows ++ r ∷ []) ≡ rows_under key rows + rows_under key (r ∷ [])
rows_under-append key [] r = omega arith
rows_under-append key (q ∷ qs) r = ground (arith, rows_under-append key qs r)

rows_under-update :
    (key : String) (p : Outbox → Bool) (f : Outbox → Outbox)
    → ((r : Outbox) → (f r).dedupe_key ≡ r.dedupe_key)
    → (rows : List Outbox) → rows_under key (update_rows p f rows) ≡ rows_under key rows
rows_under-update key p f keeps [] = refl
rows_under-update key p f keeps (r ∷ rs) =
    ground (arith, keeps r, rows_under-update key p f keeps rs)

absent-rows_under :
    (key : String) (rows : List Outbox)
    → exists_row (has_key key) rows ≡ false
    → rows_under key rows ≡ 0
unfolding has_key
absent-rows_under key [] h = refl
absent-rows_under key (r ∷ rs) h = ground (arith, absent-rows_under key rs)

present-rows_under :
    (key : String) (rows : List Outbox)
    → exists_row (has_key key) rows ≡ true
    → 1 ≤ rows_under key rows
unfolding has_key
present-rows_under key [] h = absurd (cc)
present-rows_under key (r ∷ rs) h = ground (arith, present-rows_under key rs)

new_row_under :
    (key own : String) (rows : List Outbox) (r : Outbox)
    → r.dedupe_key ≡ own
    → exists_row (has_key own) rows ≡ false
    → (rows_under key (rows ++ r ∷ []) ≡ rows_under key rows)
      ⊎ ((rows_under key rows ≡ 0) × (rows_under key (rows ++ r ∷ []) ≡ 1))
new_row_under key own rows r e free = elim (Bool-cases (own == key)) [
  | inl same ↦
      let none_yet : rows_under key rows ≡ 0 =
        subst (λ k. rows_under k rows ≡ 0) ((eq_iff own key).0 same)
          (absent-rows_under own rows free) in
      inr (none_yet, ground (arith, rows_under-append key rows r))
  | inr other ↦ inl (ground (arith, rows_under-append key rows r))
]

exec_one-rows_under :
    (key id : String) (f : Outbox → Outbox)
    → ((r : Outbox) → (f r).dedupe_key ≡ r.dedupe_key)
    → (t : Tables)
    → rows_under key (exec_one id f t).1.notifications ≡ rows_under key t.notifications
unfolding exec_one
exec_one-rows_under key id f keeps t =
    rows_under-update key (λ r. r.id == id) f keeps t.notifications

-- A write leaves the number of rows under a key, or makes it one from none.
Step-rows_under :
    {t u : Tables} (key : String)
    → Step t u
    → (rows_under key u.notifications ≡ rows_under key t.notifications)
      ⊎ ((rows_under key t.notifications ≡ 0) × (rows_under key u.notifications ≡ 1))
unfolding upsert_device deactivate_device_by_token enqueue_outbox claim_pending mark_sent reschedule
    mark_failed
Step-rows_under {t} key (upserts new_id d now) = inl (ground arith)
Step-rows_under {t} key (deactivates token) = inl refl
Step-rows_under {t} key (enqueues new_id o) =
    elim (Bool-cases (exists_row (has_key o.dedupe_key) t.notifications)) [
      | inl held ↦ inl (rw held refl)
      | inr free ↦ rw free (
          new_row_under key o.dedupe_key t.notifications
            (record o { id = new_id; status = pending; attempts = 0; sent_at = none }) refl free)
    ]
Step-rows_under {t} key (claims now lease limit) =
    inl (rows_under-update key _ (leased (now + lease)) (λ r. refl) t.notifications)
Step-rows_under {t} key (sends id at) = inl (exec_one-rows_under key id (as_sent at) (λ r. refl) t)
Step-rows_under {t} key (reschedules id attempts later) =
    inl (exec_one-rows_under key id (as_rescheduled attempts later) (λ r. refl) t)
Step-rows_under {t} key (fails id) = inl (exec_one-rows_under key id (as_failed) (λ r. refl) t)

Reach-at_most_one :
    {t u : Tables} (key : String)
    → Reach t u
    → rows_under key t.notifications ≤ 1
    → rows_under key u.notifications ≤ 1
Reach-at_most_one key here h = h
Reach-at_most_one key (next r st) h =
    ground (arith, Reach-at_most_one key r h, Step-rows_under key st)

Reach-stays_one :
    {t u : Tables} (key : String)
    → Reach t u
    → rows_under key t.notifications ≡ 1
    → rows_under key u.notifications ≡ 1
Reach-stays_one key here h = h
Reach-stays_one key (next r st) h = ground (arith, Reach-stays_one key r h, Step-rows_under key st)

-- Whatever is written in whatever order, from empty tables on: no two outbox rows share a dedupe
-- key.
pub one_row_per_key :
    (t : Tables) (key : String) → Reach empty_tables t → rows_under key t.notifications ≤ 1
one_row_per_key t key r = Reach-at_most_one key r (omega arith)

enqueued-rows_under :
    (new_id : String) (o : Outbox) (t : Tables)
    → Reach empty_tables t
    → rows_under o.dedupe_key (enqueue_outbox new_id o t).1.notifications ≡ 1
enqueued-rows_under new_id o t r =
    let few = one_row_per_key t o.dedupe_key r in
    elim (Bool-cases (exists_row (has_key o.dedupe_key) t.notifications)) [
      | inl held ↦
          unfold enqueue_outbox in
          rw held (omega (arith, few, present-rows_under o.dedupe_key t.notifications held))
      | inr free ↦
          unfold enqueue_outbox in
          rw free (
            ground (
              arith,
              eq_refl o.dedupe_key,
              absent-rows_under o.dedupe_key t.notifications free,
              rows_under-append o.dedupe_key t.notifications
                  (record o { id = new_id; status = pending; attempts = 0; sent_at = none }),
            ))
    ]

poll_to_outbox-key :
    (marshal : Marshal) (now : ℕ) (e : PollCompletedEvent) (o : Outbox)
    → poll_to_outbox marshal now e ≡ ok o
    → o.dedupe_key ≡ poll_key e
unfolding poll_to_outbox
poll_to_outbox-key marshal now e o h = ground arith

module _ (new_id raw : String) (now : Tables → ℕ) (marshal : Marshal)
    (decode : String → Result NotifyError PollCompletedEvent) (t : Tables) where
  abbrev done : Verdict × Tables
  done = process (handle_poll_completed (outbox_store new_id) now marshal decode) raw t

  acked_enqueues :
      done.0 ≡ acked
      → (e : PollCompletedEvent) × (o : Outbox) × (decode raw ≡ ok e)
        × (poll_to_outbox marshal (now t) e ≡ ok o)
        × (done.1 ≡ (enqueue_outbox new_id o t).1)
  unfolding process handle_poll_completed
  acked_enqueues h = elim (Result-cases (decode raw)) [
    | inr (x, bad) ↦ absurd (ground arith)
    | inl (e, read) ↦ elim (Result-cases (poll_to_outbox marshal (now t) e)) [
      | inr (x, bad) ↦ absurd (ground arith)
      | inl (o, built) ↦ (e, o, read, built, ground arith)
    ]
  ]

-- A poll's event that Process acknowledges has decoded, and from then on, whatever else is written
-- in whatever order, there is exactly one outbox row for it: it is never lost and never doubled.
pub acked_exactly_once :
    (new_id raw : String) (now : Tables → ℕ) (marshal : Marshal)
    (decode : String → Result NotifyError PollCompletedEvent) (t u : Tables)
    → Reach empty_tables t
    → (process (handle_poll_completed (outbox_store new_id) now marshal decode) raw t).0 ≡ acked
    → Reach (process (handle_poll_completed (outbox_store new_id) now marshal decode) raw t).1 u
    → (e : PollCompletedEvent) × (decode raw ≡ ok e) × (rows_under (poll_key e) u.notifications ≡ 1)
acked_exactly_once new_id raw now marshal decode t u reached done later =
    let (e, o, read, built, stored) = acked_enqueues new_id raw now marshal decode t done in
    let keyed = poll_to_outbox-key marshal (now t) e o built in
    let after =
      subst (λ (v : Tables). rows_under o.dedupe_key v.notifications ≡ 1) (sym stored)
        (enqueued-rows_under new_id o t reached) in
    (
      e,
      read,
      subst (λ k. rows_under k u.notifications ≡ 1) keyed
          (Reach-stays_one o.dedupe_key later after),
    )
